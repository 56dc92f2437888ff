-- ===== src/Reports.antt =====
-- Classes GameReport and BatchReporter of server/batch.py. `Outcome` is what the HTTP request came
-- to, `Saving` what writing the report file came to.
pub mod Drain
mod Tests
use nfs_most_wanted_online.Prelude.{
  ℕ, zero, suc, ◌+◌, Bool, true, false, not, Option, none, some, List, [], ◌∷◌, ◌++◌, map, length,
  take, drop, if◌then◌else◌,
}
use nfs_most_wanted_online.Prelude.Eq.{◌==◌, nat_eq, text_eq}
use nfs_most_wanted_online.Prelude.Sets.{contains, add}
use nfs_most_wanted_online.Prelude.Dict.{Dict}
use nfs_most_wanted_online.Prelude.Text.{Text, truthy}
use nfs_most_wanted_online.Games.{Fields}

pub data ReportState : Type 0 where
  pending sent failed : ReportState

pub record GameReport : Type 0 where
  pub game_id : ℕ
  pub participants : List ℕ
  pub results : Dict ℕ Fields
  pub created_at : ℕ
  pub retries : ℕ
  pub state : ReportState

-- `GameReport.__init__`, with the time.
abbrev pub new_report : ℕ → ℕ → List ℕ → Dict ℕ Fields → GameReport
new_report now game_id participants results = record {
  game_id = game_id;
  participants = participants;
  results = results;
  created_at = now;
  retries = 0;
  state = pending;
}

-- An object of the report file; `state` is the value of a key "state", if there is one.
pub record Saved : Type 0 where
  pub game_id : ℕ
  pub participants : List ℕ
  pub results : Dict ℕ Fields
  pub created_at : ℕ
  pub state : Option ReportState

abbrev pub to_dict : GameReport → Saved
to_dict report = record {
  game_id = report.game_id;
  participants = report.participants;
  results = report.results;
  created_at = report.created_at;
  state = none;
}

-- The report file: it may not exist, and is `broken` once a write was cut short, for no beginning of a
-- JSON list is JSON.
pub data ReportFile : Type 0 where
  missing broken : ReportFile
  holds : List Saved → ReportFile

pub record BatchReporter : Type 0 where
  pub queue : List GameReport
  pub http_host : Text
  pub cycle_size : ℕ
  pub file : ReportFile

is_failed : Option ReportState → Bool
is_failed (some failed) = true
is_failed _ = false

unfoldable pub pending_of : ℕ → List Saved → List GameReport
unfolding is_failed
pending_of now [] = []
pending_of now (d ∷ data_) =
    let rest = pending_of now data_ in
    if is_failed d.state then new_report now d.game_id d.participants d.results ∷ rest else rest

load_found : BatchReporter → ℕ → ReportFile → BatchReporter
load_found m now missing = m
load_found m now broken = m
load_found m now (holds data_) = record m { queue = m.queue ++ pending_of now data_ }

unfoldable pub load_pending : BatchReporter → ℕ → BatchReporter
unfolding load_found
load_pending m now = load_found m now m.file

-- `BatchReporter.__init__`, with what the report file holds.
unfoldable pub init : ℕ → Text → ReportFile → BatchReporter
init now http_host file =
    load_pending (record { queue = []; http_host = http_host; cycle_size = 10; file = file }) now

unfoldable pub enqueue : BatchReporter → GameReport → BatchReporter
enqueue m report = record m { queue = m.queue ++ report ∷ [] }

pub data Outcome : Type 0 where
  answered url_error other_error : Outcome

abbrev with_outcome : GameReport → Outcome → GameReport
with_outcome report answered = record report { state = sent }
with_outcome report url_error = record report { state = failed; retries = suc report.retries }
with_outcome report other_error = report

unfoldable pub submit_report : Text → (GameReport → Outcome) → GameReport → GameReport
submit_report http_host net report =
    if truthy http_host then with_outcome report (net report) else report

-- The loop of `_process_batch` over the participants: the users it warns about.
unfoldable pub duplicate_users : List ℕ → List ℕ → List ℕ
duplicate_users seen [] = []
duplicate_users seen (uid ∷ uids) =
    let rest = duplicate_users (add uid seen) uids in if contains uid seen then uid ∷ rest else rest

abbrev pub entries : ReportFile → List Saved
entries missing = []
entries broken = []
entries (holds existing) = existing

-- The file is written whole, cannot be read or opened, or is opened, which empties it, and the write
-- fails on the way.
pub data Saving : Type 0 where
  written unopened cut_short : Saving

-- What is in a broken file cannot be loaded, so it is not opened for writing either.
pub save_in : ReportFile → Saving → List GameReport → ReportFile
save_in broken _ batch = broken
save_in file written batch = holds (entries file ++ map to_dict batch)
save_in file unopened batch = file
save_in file cut_short batch = broken

unfoldable pub save_log : BatchReporter → Saving → List GameReport → BatchReporter
unfolding save_in
save_log m saving batch = record m { file = save_in m.file saving batch }

unfoldable pub process_batch :
    BatchReporter → (GameReport → Outcome) → Saving → List GameReport → BatchReporter
process_batch m net saving batch = save_log m saving (map (submit_report m.http_host net) batch)

-- One round of `_batch_loop`.
unfoldable pub batch_round : BatchReporter → (GameReport → Outcome) → Saving → BatchReporter
batch_round m net saving =
    let batch = take m.cycle_size m.queue in
    let rest : BatchReporter = record m { queue = drop m.cycle_size m.queue } in
    if length batch == 0 then rest else process_batch rest net saving batch

-- A round for each of the outcomes of writing the file.
unfoldable pub batch_rounds : List Saving → BatchReporter → (GameReport → Outcome) → BatchReporter
batch_rounds [] m net = m
batch_rounds (saving ∷ savings) m net = batch_rounds savings (batch_round m net saving) net

-- A restart of the server keeps the file alone.
pub data Op : Type 0 where
  enqueues : GameReport → Op
  batches : (GameReport → Outcome) → Saving → Op
  restarts : ℕ → Op

unfoldable pub step : BatchReporter → Op → BatchReporter
step m (enqueues report) = enqueue m report
step m (batches net saving) = batch_round m net saving
step m (restarts now) = init now m.http_host m.file

unfoldable pub run : BatchReporter → List Op → BatchReporter
unfolding step
run m [] = m
run m (o ∷ ops) = run (step m o) ops
