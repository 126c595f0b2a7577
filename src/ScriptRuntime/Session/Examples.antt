-- ===== src/ScriptRuntime/Session/Examples.antt =====
-- A short script run to its end, and inputs that are refused.
use new_yokosuka_server.Base.{◌≡◌, ◌⊎◌, ◌↔◌, refl, String, true, none, some, List, [], ◌∷◌, Option}
use new_yokosuka_server.Base.Int.{ℤ, pos}
use new_yokosuka_server.Base.Text.{trim_space}
use new_yokosuka_server.ScriptContent.Calls.Examples.{registry}
use new_yokosuka_server.ScriptRuntime.{Event, Input, continue_input, select_input}
use new_yokosuka_server.ScriptRuntime.Session.{
  Session, new_session, exchange, received, stopped, failed, runtime_stopped, force_stop, close,
  timed_out, exited, validate_input, validate_event, receive, receive_node, receive_line,
  receive_end, proceed, finish, scan, refusal, select,
}
use new_yokosuka_server.ScriptRuntime.Session.Answers.{Answers, validate_input_iff}
use new_yokosuka_server.ScriptRuntime.Session.Failure.{exchange_failed, IsStopped}
use new_yokosuka_server.ScriptRuntime.Session.Transcript.{Call, talk, IsTranscript}
use new_yokosuka_server.ScriptRuntime.Session.Order.{talk-IsTranscript}
use new_yokosuka_server.ScriptRuntime.Session.Closing.{close_once}

abbrev event_of : String → ℤ → Event
event_of kind sequence = record {
  type_name = kind;
  sequence = sequence;
  query_id = none;
  name = "";
  node = "Start";
  line_id = "line:1";
  arguments = [];
  options = [];
  message = "";
}

abbrev call_with : Option Input → Event → Call
call_with input event = record { input = input; written = true; scanned = received event }

abbrev calls : List Call
calls =
    call_with none (event_of "nodeStart" (pos 1))
    ∷ call_with none (event_of "line" (pos 2))
    ∷ call_with none (event_of "line" (pos 3))
    ∷ call_with (some continue_input) (event_of "complete" (pos 3))
    ∷ call_with none (event_of "line" (pos 4))
    ∷ []

talk-calls :
    talk calls (new_session registry)
    ≡ event_of "nodeStart" (pos 1) ∷ event_of "line" (pos 2) ∷ event_of "complete" (pos 3) ∷ []
unfolding talk exchange validate_input validate_event receive receive_node receive_line receive_end
    proceed finish scan trim_space refusal
talk-calls = refl

talk-IsTranscript_example : IsTranscript registry 0 (talk calls (new_session registry))
talk-IsTranscript_example = talk-IsTranscript registry calls

stopped_exchange :
    exchange none true stopped (new_session registry)
    ≡ (failed runtime_stopped, force_stop (new_session registry))
unfolding exchange validate_input proceed scan
stopped_exchange = refl

exchange_failed_example :
    (force_stop (new_session registry) ≡ new_session registry)
    ⊎ IsStopped (force_stop (new_session registry))
exchange_failed_example =
    exchange_failed none true stopped (new_session registry) (force_stop (new_session registry))
      runtime_stopped stopped_exchange

abbrev asking : Session
asking = record (new_session registry) { awaiting = select; options = pos 2 ∷ [] }

validate_input_iff_example :
    ((validate_input (some (select_input (pos 2))) asking).0 ≡ none)
    ↔ Answers asking (some (select_input (pos 2)))
validate_input_iff_example = validate_input_iff asking (some (select_input (pos 2)))

close_once_example :
    ((close timed_out asking).1.terminal ≡ true)
    × (close exited (close timed_out asking).1 ≡ (none, (close timed_out asking).1))
close_once_example = close_once timed_out exited asking refl
