-- ===== src/Reports/Drain.antt =====
-- The queue of reports: it drains in order, and what is saved is never taken up again.
use nfs_most_wanted_online.Prelude.{
  ℕ, zero, suc, ◌*◌, ◌≤◌, ◌≡◌, ◌≢◌, refl, sym, ap, ◌∙◌, ◌↔◌, inl, inr, true, false, none, List, [],
  ◌∷◌, ◌++◌, map, length, take, drop, arith, Bool-cases, length-drop, All, All-append,
}
use nfs_most_wanted_online.Prelude.Eq.{◌==◌, nat_eq}
use nfs_most_wanted_online.Prelude.Sets.{contains, add, contains-add, Distinct}
use nfs_most_wanted_online.Prelude.Text.{Text}
use nfs_most_wanted_online.Reports.{
  GameReport, Saved, to_dict, BatchReporter, pending_of, load_pending, init, enqueue, Outcome,
  ReportFile, missing, broken, holds, Saving, written, unopened, cut_short, save_in, submit_report,
  duplicate_users, entries, save_log, process_batch, batch_round, batch_rounds, Op, enqueues,
  batches, restarts, step, run,
}

append_nil : {A : Type 0} (xs : List A) → xs ++ [] ≡ xs
append_nil [] = refl
append_nil (x ∷ xs) = ap (◌∷◌ x) (append_nil xs)

append_assoc : {A : Type 0} (xs ys zs : List A) → (xs ++ ys) ++ zs ≡ xs ++ (ys ++ zs)
append_assoc [] ys zs = refl
append_assoc (x ∷ xs) ys zs = ap (◌∷◌ x) (append_assoc xs ys zs)

no_length : {A : Type 0} (xs : List A) → length xs ≤ 0 → xs ≡ []
no_length [] h = refl
no_length (x ∷ xs) h = absurd (omega arith)

-- What a report leaves in the file once it has been submitted.
abbrev pub logged : Text → (GameReport → Outcome) → List GameReport → List Saved
logged http_host net queue = map to_dict (map (submit_report http_host net) queue)

logged-take-drop :
    (http_host : Text) (net : GameReport → Outcome) (n : ℕ) (queue : List GameReport)
    → logged http_host net (take n queue) ++ logged http_host net (drop n queue)
      ≡ logged http_host net queue
logged-take-drop http_host net zero [] = refl
logged-take-drop http_host net (suc n) [] = refl
logged-take-drop http_host net zero (r ∷ queue) = refl
logged-take-drop http_host net (suc n) (r ∷ queue) =
    ap (◌∷◌ (to_dict (submit_report http_host net r))) (logged-take-drop http_host net n queue)

-- A round takes up to `cycle_size` reports off the queue, whatever becomes of the file.
batch_round_takes :
    (m : BatchReporter) (net : GameReport → Outcome) (saving : Saving)
    → ((batch_round m net saving).queue ≡ drop m.cycle_size m.queue)
      × ((batch_round m net saving).http_host ≡ m.http_host)
      × ((batch_round m net saving).cycle_size ≡ m.cycle_size)
unfolding batch_round process_batch save_log
batch_round_takes m net saving = elim (Bool-cases (length (take m.cycle_size m.queue) == 0)) [
  | inl e ↦ rw e (refl, refl, refl)
  | inr e ↦ rw e (refl, refl, refl)
]

-- Enough rounds empty the queue, whether or not the file can be written.
batch_rounds_empty :
    (savings : List Saving) (m : BatchReporter) (net : GameReport → Outcome)
    → length m.queue ≤ length savings * m.cycle_size
    → (batch_rounds savings m net).queue ≡ []
unfolding batch_rounds
batch_rounds_empty [] m net h = no_length m.queue (omega arith)
batch_rounds_empty (saving ∷ savings) m net h =
    let one = batch_round_takes m net saving in
    batch_rounds_empty savings (batch_round m net saving) net
      (rw (one.0, one.2, length-drop m.cycle_size m.queue) (omega arith))

save_in-written :
    (file : ReportFile) (batch : List GameReport)
    → file ≢ broken
    → save_in file written batch ≡ holds (entries file ++ map to_dict batch)
unfolding save_in
save_in-written missing batch h = refl
save_in-written broken batch h = absurd (h refl)
save_in-written (holds existing) batch h = refl

-- A round that can write logs the reports that it takes off.
batch_round_logs :
    (m : BatchReporter) (net : GameReport → Outcome)
    → m.file ≢ broken
    → ((batch_round m net written).file ≢ broken)
      × (entries (batch_round m net written).file
          ≡ entries m.file ++ logged m.http_host net (take m.cycle_size m.queue))
unfolding batch_round process_batch save_log
batch_round_logs m net sound = elim (Bool-cases (length (take m.cycle_size m.queue) == 0)) [
  | inl e ↦ rw e (
    sound,
    sym (
        ap (λ b. entries m.file ++ logged m.http_host net b)
          (no_length (take m.cycle_size m.queue) (ground arith))
        ∙ append_nil (entries m.file)),
  )
  | inr e ↦ rw (e, save_in-written m.file _ sound) (λ q. absurd (cc), refl)
]

batch_rounds_log :
    (savings : List Saving) (m : BatchReporter) (net : GameReport → Outcome)
    → length m.queue ≤ length savings * m.cycle_size
    → m.file ≢ broken
    → All (λ saving. saving ≡ written) savings
    → entries (batch_rounds savings m net).file ≡ entries m.file ++ logged m.http_host net m.queue
unfolding batch_rounds
batch_rounds_log [] m net h sound all = sym (
    ap (λ b. entries m.file ++ logged m.http_host net b) (no_length m.queue (omega arith))
    ∙ append_nil (entries m.file))
batch_rounds_log (saving ∷ savings) m net h sound all = rw all.0 (
    let one = batch_round_takes m net written in
    let logs = batch_round_logs m net sound in
    batch_rounds_log savings (batch_round m net written) net
      (rw (one.0, one.2, length-drop m.cycle_size m.queue) (omega arith)) logs.0 all.1
    ∙ rw (one.0, one.1, logs.1)
        (append_assoc (entries m.file) (logged m.http_host net (take m.cycle_size m.queue)) _
          ∙ ap (◌++◌ (entries m.file)) (logged-take-drop m.http_host net m.cycle_size m.queue)))

-- If the report file is not broken and every round can write it, then as many rounds as have room for
-- the reports of the queue, `cycle_size` in each, leave the queue empty, and the file holds each
-- report once, in the order in which they came, after what it held before.
pub batch_rounds_drain :
    (savings : List Saving) (m : BatchReporter) (net : GameReport → Outcome)
    → length m.queue ≤ length savings * m.cycle_size
    → m.file ≢ broken
    → All (λ saving. saving ≡ written) savings
    → ((batch_rounds savings m net).queue ≡ [])
      × (entries (batch_rounds savings m net).file
          ≡ entries m.file ++ logged m.http_host net m.queue)
batch_rounds_drain savings m net h sound all =
    (batch_rounds_empty savings m net h, batch_rounds_log savings m net h sound all)

-- Nothing in the file says that it is to be sent again.
abbrev Unmarked : Saved → Type 0
Unmarked d = d.state ≡ none

pending_of-Unmarked :
    (now : ℕ) (saved : List Saved) → All Unmarked saved → pending_of now saved ≡ []
unfolding pending_of
pending_of-Unmarked now [] h = refl
pending_of-Unmarked now (d ∷ saved) h = rw (h.0, pending_of) (pending_of-Unmarked now saved h.1)

init-file : (now : ℕ) (http_host : Text) (file : ReportFile) → (init now http_host file).file ≡ file
unfolding init load_pending
init-file now http_host missing = refl
init-file now http_host broken = refl
init-file now http_host (holds saved) = refl

init-queue :
    (now : ℕ) (http_host : Text) (file : ReportFile)
    → All Unmarked (entries file)
    → (init now http_host file).queue ≡ []
unfolding init load_pending
init-queue now http_host missing h = refl
init-queue now http_host broken h = refl
init-queue now http_host (holds saved) h = pending_of-Unmarked now saved h

to_dict-Unmarked : (batch : List GameReport) → All Unmarked (map to_dict batch)
to_dict-Unmarked [] = tt
to_dict-Unmarked (r ∷ batch) = (refl, to_dict-Unmarked batch)

save_in-Unmarked :
    (file : ReportFile) (saving : Saving) (batch : List GameReport)
    → All Unmarked (entries file)
    → All Unmarked (entries (save_in file saving batch))
unfolding save_in
save_in-Unmarked missing written batch h = to_dict-Unmarked batch
save_in-Unmarked missing unopened batch h = tt
save_in-Unmarked missing cut_short batch h = tt
save_in-Unmarked broken written batch h = tt
save_in-Unmarked broken unopened batch h = tt
save_in-Unmarked broken cut_short batch h = tt
save_in-Unmarked (holds saved) written batch h =
    All-append Unmarked saved _ h (to_dict-Unmarked batch)
save_in-Unmarked (holds saved) unopened batch h = h
save_in-Unmarked (holds saved) cut_short batch h = tt

batch_round-Unmarked :
    (m : BatchReporter) (net : GameReport → Outcome) (saving : Saving)
    → All Unmarked (entries m.file)
    → All Unmarked (entries (batch_round m net saving).file)
unfolding batch_round process_batch save_log
batch_round-Unmarked m net saving h = elim (Bool-cases (length (take m.cycle_size m.queue) == 0)) [
  | inl e ↦ rw e h
  | inr e ↦ rw e (
      save_in-Unmarked m.file saving
        (map (submit_report m.http_host net) (take m.cycle_size m.queue)) h)
]

run-Unmarked :
    (m : BatchReporter) (ops : List Op)
    → All Unmarked (entries m.file)
    → All Unmarked (entries (run m ops).file)
unfolding run step
run-Unmarked m [] h = h
run-Unmarked m (enqueues report ∷ ops) h = run-Unmarked (enqueue m report) ops (unfold enqueue in h)
run-Unmarked m (batches net saving ∷ ops) h =
    run-Unmarked (batch_round m net saving) ops (batch_round-Unmarked m net saving h)
run-Unmarked m (restarts now ∷ ops) h =
    run-Unmarked (init now m.http_host m.file) ops (rw (init-file now m.http_host m.file) h)

-- A report that failed is not sent again: `to_dict` leaves the state out, by which `_load_pending`
-- would know it. Whatever was queued, sent or lost, the queue is empty after a restart.
pub restart_forgets :
    (start now : ℕ) (http_host : Text) (ops : List Op)
    → let m = run (init start http_host missing) ops in (init now m.http_host m.file).queue ≡ []
restart_forgets start now http_host ops =
    init-queue now _ _
      (run-Unmarked (init start http_host missing) ops (rw (init-file start http_host missing) tt))

Unseen : List ℕ → List ℕ → Type 0
Unseen seen uids = (u : ℕ) → contains u uids ≡ true → contains u seen ≡ false

duplicate_users-seen :
    (seen uids : List ℕ) → (duplicate_users seen uids ≡ []) ↔ (Distinct uids × Unseen seen uids)
unfolding duplicate_users contains Unseen
duplicate_users-seen seen [] = (λ _. (tt, λ u h. absurd (cc)), λ _. refl)
duplicate_users-seen seen (uid ∷ uids) =
    let rest = duplicate_users-seen (add uid seen) uids in
    let now_seen = λ (u : ℕ). contains-add uid u seen in
    (
      (λ h.
          let tail : duplicate_users (add uid seen) uids ≡ [] = ground arith in
          let fresh : contains uid seen ≡ false = ground arith in
          let d = rest.0 tail in
          ((ground (arith, d.1 uid, now_seen uid), d.0), λ u k. ground (arith, d.1 u, now_seen u))),
      λ d.
          let fresh : contains uid seen ≡ false = d.1 uid (ground arith) in
          let tail : duplicate_users (add uid seen) uids ≡ [] =
            rest.1 (d.0.1, λ u k. ground (arith, d.1 u, now_seen u)) in
          ground arith,
    )

-- A warning about a user who stands in a game twice comes exactly if there is one.
pub duplicate_users_iff : (uids : List ℕ) → (duplicate_users [] uids ≡ []) ↔ Distinct uids
unfolding Unseen contains
duplicate_users_iff uids =
    let all = duplicate_users-seen [] uids in ((λ h. (all.0 h).0), λ d. all.1 (d, λ u _. refl))
