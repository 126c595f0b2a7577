-- ===== src/ScriptEvent/Engine/Logged.antt =====
-- An event that shows a line, pays the player and completes, on a logged repository.
use new_yokosuka_server.Base.{ℕ, ◌≡◌, refl, List, [], Option, some, none}
use new_yokosuka_server.Floats.Naturals.{naturals}
use new_yokosuka_server.ScriptRuntime.{continue_input}
use new_yokosuka_server.Store.Transaction.{err, invalid, ◌>>=◌}
use new_yokosuka_server.Store.Effects.{durable_of}
use new_yokosuka_server.ScriptEvent.State.{
  stage, stage_saved, stage_durable, stage_yen, stage_grant, positive_integer, event_integer,
  event_number,
}
use new_yokosuka_server.ScriptEvent.Engine.{World, kind_of, disposition_of}
use new_yokosuka_server.ScriptEvent.Engine.Pump.{
  Answer, start, advance, start_candidate, pump, send, trace_input, receive, record_trace, dispatch,
  run_command, stage_command, show_line, finish, advance_event,
}
use new_yokosuka_server.ScriptEvent.Engine.Reached.{new_engine}
use new_yokosuka_server.ScriptEvent.Engine.Calls.{Call, logged, AllJustified}
use new_yokosuka_server.ScriptEvent.Engine.Justified.{made, started, advanced, runs-AllJustified}
use new_yokosuka_server.ScriptEvent.Engine.Examples.{small, no_facts, area, to_the_line, to_the_end}

abbrev Log : Type 0
Log = ℕ × List (Call naturals)

abbrev engine : World naturals Log
engine = new_engine (0, [])

abbrev answer_or : Option (Answer naturals Log) → Answer naturals Log
answer_or none = (err invalid, engine)
answer_or (some answer) = answer

unfoldable shown : Answer naturals Log
shown = answer_or (start (logged naturals small) to_the_line 3 7 area no_facts engine)

start_shows : start (logged naturals small) to_the_line 3 7 area no_facts engine ≡ some shown
unfolding shown start start_candidate pump send trace_input receive record_trace dispatch
    run_command stage_command show_line kind_of disposition_of durable_of stage stage_saved
    stage_durable stage_yen stage_grant positive_integer event_integer event_number ◌>>=◌
start_shows = refl

unfoldable paid : Answer naturals Log
paid = answer_or (advance (logged naturals small) to_the_end 3 7 1 continue_input shown.1)

advance_pays : advance (logged naturals small) to_the_end 3 7 1 continue_input shown.1 ≡ some paid
unfolding paid shown start start_candidate pump send trace_input receive record_trace dispatch
    run_command stage_command show_line kind_of disposition_of durable_of stage stage_saved
    stage_durable stage_yen stage_grant positive_integer event_integer event_number advance
    advance_event finish ◌>>=◌
advance_pays = refl

runs-AllJustified_example : AllJustified naturals paid.1.repository.1
runs-AllJustified_example = runs-AllJustified small paid.1 (
    advanced to_the_end 3 7 1 continue_input shown.1 paid
      (started to_the_line 3 7 area no_facts engine shown (made 0) start_shows) advance_pays)
