-- ===== src/Store/Runs/Examples.antt =====
-- A run that is started and cancelled, and another one after it.
use new_yokosuka_server.Base.{ℕ, ◌≤◌, ◌≡◌, refl, arith, some, none, [], ◌∷◌, ◌==◌, if◌then◌else◌}
use new_yokosuka_server.Base.Int.{pos}
use new_yokosuka_server.Store.Examples.{ryo}
use new_yokosuka_server.Store.Transaction.{transact, ◌>>=◌}
use new_yokosuka_server.Store.Runs.{
  Run, Events, Op, start, cancel, renew, new_run, end_as, cancelled, run_all, step,
  start_published_script_event, start_tx, require_character, expire_runs, update_where, choose,
  claim_revision, insert_run, cancel_script_event, change_run,
}
use new_yokosuka_server.Store.Runs.Steps.{count_active, find_run}
use new_yokosuka_server.Store.Runs.Lifecycle.{run_all-single, run_all-ended}

abbrev begin : ℕ → Op
begin id =
    start (λ c. if c == 7 then some ryo else none) 3 7 (5 ∷ [])
      (record { version_id = 5; priority = pos 9 }
        ∷ record { version_id = 4; priority = pos 2 }
        ∷ [])
      id (if id == 1 then "a" else "b") 300 0

abbrev no_events : Events
no_events = record { runs = []; revisions = λ c. none }

abbrev ended_run : Run
ended_run = end_as cancelled (new_run 1 7 4 "a" 300 0)

abbrev after_cancel : Events
after_cancel = record { runs = ended_run ∷ []; revisions = λ c. if c == 7 then some 0 else none }

begin_then_cancel : run_all (begin 1 ∷ cancel 1 "a" ∷ []) no_events ≡ after_cancel
unfolding run_all step start_published_script_event start_tx require_character expire_runs
    update_where choose claim_revision insert_run cancel_script_event change_run transact ◌>>=◌
begin_then_cancel = refl

none_active : count_active 7 no_events.runs ≤ 1
unfolding count_active
none_active = omega arith

run_all-single_example : count_active 7 (run_all (begin 1 ∷ begin 2 ∷ []) no_events).runs ≤ 1
run_all-single_example = run_all-single 7 (begin 1 ∷ begin 2 ∷ []) no_events none_active

found_ended : find_run 1 after_cancel.runs ≡ some ended_run
unfolding find_run
found_ended = refl

run_all-ended_example :
    find_run 1 (run_all (renew 1 "a" 900 10 ∷ begin 2 ∷ []) after_cancel).runs ≡ some ended_run
run_all-ended_example =
    run_all-ended 1 ended_run (renew 1 "a" 900 10 ∷ begin 2 ∷ []) after_cancel found_ended refl
