-- ===== src/Reports/Tests.antt =====
-- Test data for the reports of server/batch.py, and the theorems applied to it.
use nfs_most_wanted_online.Prelude.{
  ℕ, ◌*◌, ◌≤◌, ◌≡◌, refl, [], ◌∷◌, ◌++◌, List, arith, length, replicate,
}
use nfs_most_wanted_online.Prelude.Eq.{nat_eq}
use nfs_most_wanted_online.Prelude.Text.{codes}
use nfs_most_wanted_online.Reports.{
  GameReport, BatchReporter, new_report, Outcome, url_error, init, enqueues, batches, restarts, run,
  Saving, written, cut_short, missing, broken, batch_round, process_batch, save_log, save_in,
  submit_report, Op, entries, batch_rounds,
}
use nfs_most_wanted_online.Reports.Drain.{logged, batch_rounds_drain, restart_forgets}

abbrev report : GameReport
report = new_report 100 3 (7 ∷ 8 ∷ []) []

abbrev fifteen : BatchReporter
fifteen = record {
  queue = replicate 15 report;
  http_host = codes "stats";
  cycle_size = 10;
  file = missing;
}

abbrev refused : GameReport → Outcome
refused r = url_error

abbrev twice : List Saving
twice = written ∷ written ∷ []

two_rounds : length fifteen.queue ≤ length twice * fifteen.cycle_size
two_rounds = omega arith

batch_rounds_drain_example :
    ((batch_rounds twice fifteen refused).queue ≡ [])
    × (entries (batch_rounds twice fifteen refused).file
        ≡ entries fifteen.file ++ logged fifteen.http_host refused fifteen.queue)
batch_rounds_drain_example =
    batch_rounds_drain twice fifteen refused two_rounds (λ e. absurd (cc)) (refl, (refl, tt))

-- After a write that is cut short the reports are gone: the queue is empty and the file is of no use.
lost :
    let m = batch_rounds (cut_short ∷ written ∷ []) fifteen refused in
    (m.queue ≡ []) × (m.file ≡ broken)
unfolding batch_rounds batch_round process_batch save_log save_in submit_report
lost = (refl, refl)

abbrev history : List Op
history = enqueues report ∷ batches refused written ∷ enqueues report ∷ restarts 200 ∷ []

restart_forgets_example :
    let m = run (init 100 (codes "stats") missing) history in
    (init 300 m.http_host m.file).queue ≡ []
restart_forgets_example = restart_forgets 100 300 (codes "stats") history

abbrev listed_twice : List ℕ
listed_twice = 7 ∷ 8 ∷ 7 ∷ []
