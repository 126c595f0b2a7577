-- ===== src/ScriptRuntime/Session.antt =====
-- internal/scriptruntime/session.go: a session with the runtime process, one exchange at a time
-- under its lock. What the process does (that it takes the input, what it then prints, that it
-- exits) and a cancelled context are arguments.
pub mod Answers
pub mod Transcript
pub mod Receive
pub mod Order
pub mod Failure
pub mod Closing
pub mod Examples
use new_yokosuka_server.Base.{
  ℕ, suc, Bool, true, false, not, ◌&&◌, ◌||◌, String, Option, none, some, List, [], ◌∷◌, ◌++◌,
  str_eq, is_some, if◌then◌else◌, map,
}
use new_yokosuka_server.Base.Int.{ℤ, pos, eq_ℤ, leb_ℤ}
use new_yokosuka_server.Base.Text.{trim_space}
use new_yokosuka_server.ScriptContent.{
  CommandRegistry, CommandSchema, CommandParameter, CompiledCall,
}
use new_yokosuka_server.ScriptContent.Calls.{analyze_calls}
use new_yokosuka_server.ScriptRuntime.{
  StartRequest, StartMessage, FunctionDefinition, Input, Event, RuntimeOption, Value,
}

-- The texts "", "continue", "queryResult" and "select" of the field `awaiting`.
pub data Awaiting : Type 0 where
  nothing continue query_result select : Awaiting

-- `options` holds the identifiers that the source's map sends to true. `running` says that the
-- process was not killed, and `closed` that `closeOnce` was used.
pub record Session : Type 0 where
  pub registry : CommandRegistry
  pub sequence : ℕ
  pub awaiting : Awaiting
  pub query_id : ℤ
  pub options : List ℤ
  pub terminal : Bool
  pub running : Bool
  pub closed : Bool

pub data RuntimeError : Type 0 where
  invalid_request not_started session_ended not_requested no_input : RuntimeError
  requires_continue requires_result requires_option : RuntimeError
  write_failed context_done runtime_stopped undecodable : RuntimeError
  runtime_error wrong_sequence empty_node empty_line invalid_query invalid_call : RuntimeError
  no_options option_without_line unknown_event did_not_stop : RuntimeError

-- The functions of the registry, as the runtime is told of them.
unfoldable pub function_definitions : List CommandSchema → List FunctionDefinition
function_definitions [] = []
function_definitions (e ∷ es) =
    let rest = function_definitions es in
    if not (str_eq e.kind "function")
    then rest
    else record {
      name = e.name;
      return_type = e.return_type;
      parameter_types = map (λ (p : CommandParameter). p.type_name) e.parameters;
    }
      ∷ rest

abbrev pub is_empty {ℓ} : {A : Type ℓ} → List A → Bool
is_empty [] = true
is_empty (x ∷ xs) = false

abbrev pub is_blank : String → Bool
is_blank s = str_eq (trim_space s) ""

abbrev pub new_session : CommandRegistry → Session
new_session registry = record {
  registry = registry;
  sequence = 0;
  awaiting = nothing;
  query_id = pos 0;
  options = [];
  terminal = false;
  running = true;
  closed = false;
}

pub data Started : Type 0 where
  refused : RuntimeError → Started
  started : StartMessage → Session → Started

-- `launched`: the pipes were opened and the process started; `written`: it took the message.
unfoldable pub start : CommandRegistry → StartRequest → Bool → Bool → Started
start registry request launched written =
    if is_empty request.program || is_blank request.start_node
    then refused invalid_request
    else if not launched
    then refused not_started
    else if not written
    then refused write_failed
    else started
        (record {
          program = request.program;
          start_node = trim_space request.start_node;
          functions = function_definitions registry.entries;
          variables = request.variables;
        })
        (new_session registry)

unfoldable pub force_stop : Session → Session
force_stop s = record s { running = false; terminal = true }

abbrev pub mem_ℤ : ℤ → List ℤ → Bool
mem_ℤ i [] = false
mem_ℤ i (j ∷ js) = eq_ℤ i j || mem_ℤ i js

abbrev pub is_id : Option ℤ → ℤ → Bool
is_id none i = false
is_id (some j) i = eq_ℤ j i

abbrev pub is_option : Option ℤ → List ℤ → Bool
is_option none options = false
is_option (some i) options = mem_ℤ i options

-- The switch on `s.awaiting`, for an input that does not cancel.
unfoldable pub refusal : Awaiting → Session → Input → Option RuntimeError
refusal nothing s input = none
refusal continue s input =
    if not (str_eq input.type_name "continue") then some requires_continue else none
refusal query_result s input =
    if not (str_eq input.type_name "queryResult")
      || not (is_id input.query_id s.query_id)
      || not (is_some input.value)
    then some requires_result
    else none
refusal select s input =
    if not (str_eq input.type_name "select") || not (is_option input.option_id s.options)
    then some requires_option
    else none

abbrev pub is_nothing : Awaiting → Bool
is_nothing nothing = true
is_nothing _ = false

unfoldable pub validate_input : Option Input → Session → Option RuntimeError × Session
validate_input none s = if is_nothing s.awaiting then (none, s) else (some no_input, s)
validate_input (some input) s =
    if is_nothing s.awaiting
    then (some not_requested, s)
    else if str_eq input.type_name "cancel"
    then (none, s)
    else elim (refusal s.awaiting s input) [
      | some e ↦ (some e, s)
      | none ↦ (none, record s { awaiting = nothing; options = [] })
    ]

abbrev pub call_of : String → Event → CompiledCall
call_of kind event = record {
  kind = kind;
  name = event.name;
  node = "";
  file_name = "";
  start_line = 0;
  start_column = 0;
  end_line = 0;
  end_column = 0;
  parse_error = none;
  arguments = event.arguments;
}

abbrev pub has_diagnostics : String → Event → Session → Bool
has_diagnostics kind event s = not (is_empty (analyze_calls (call_of kind event ∷ []) s.registry).1)

unfoldable pub receive_command : Event → Session → Option RuntimeError × Session
receive_command event s =
    let waiting = record s { awaiting = continue } in
    if has_diagnostics "command" event s then (some invalid_call, waiting) else (none, waiting)

-- A query identifier that is missing is refused as one that is not positive.
unfoldable pub receive_query : Event → Session → Option RuntimeError × Session
receive_query event s = elim event.query_id [
  | none ↦ (some invalid_query, s)
  | some query_id ↦
      if leb_ℤ query_id (pos 0)
      then (some invalid_query, s)
      else let waiting = record s { awaiting = query_result; query_id = query_id } in
        if has_diagnostics "function" event s then (some invalid_call, waiting) else (none, waiting)
]

-- The options up to the first one without a line.
unfoldable pub receive_options : List RuntimeOption → Session → Option RuntimeError × Session
receive_options [] s = (none, record s { awaiting = select })
receive_options (option ∷ options) s =
    let rest =
      receive_options options
        (if option.is_available then record s { options = option.id ∷ s.options } else s) in
    if str_eq option.line_id "" then (some option_without_line, s) else rest

unfoldable pub receive_node : Event → Session → Option RuntimeError × Session
receive_node event s = if is_blank event.node then (some empty_node, s) else (none, s)

unfoldable pub receive_line : Event → Session → Option RuntimeError × Session
receive_line event s =
    if is_blank event.line_id
    then (some empty_line, s)
    else (none, record s { awaiting = continue })

unfoldable pub receive_choice : Event → Session → Option RuntimeError × Session
unfolding receive_options
receive_choice event s =
    if is_empty event.options then (some no_options, s) else receive_options event.options s

unfoldable pub receive_end : Session → Option RuntimeError × Session
receive_end s = (none, record s { terminal = true })

-- The switch on `event.Type`.
unfoldable pub receive : Event → Session → Option RuntimeError × Session
receive event s =
    if str_eq event.type_name "nodeStart" || str_eq event.type_name "nodeComplete"
    then receive_node event s
    else if str_eq event.type_name "line"
    then receive_line event s
    else if str_eq event.type_name "command"
    then receive_command event s
    else if str_eq event.type_name "query"
    then receive_query event s
    else if str_eq event.type_name "options"
    then receive_choice event s
    else if str_eq event.type_name "complete" || str_eq event.type_name "cancelled"
    then receive_end s
    else (some unknown_event, s)

-- The next number, and nothing outcome for yet.
abbrev pub next_turn : Session → Session
next_turn s = record s {
  sequence = suc s.sequence;
  awaiting = nothing;
  query_id = pos 0;
  options = [];
}

unfoldable pub validate_event : Event → Session → Option RuntimeError × Session
validate_event event s =
    if str_eq event.type_name "error"
    then (some runtime_error, record s { terminal = true })
    else if not (eq_ℤ event.sequence (pos (suc s.sequence)))
    then (some wrong_sequence, s)
    else receive event (next_turn s)

-- What the exchange meets after the input was taken.
pub data Scanned : Type 0 where
  cancelled stopped garbled : Scanned
  received : Event → Scanned

pub data Reply : Type 0 where
  failed : RuntimeError → Reply
  replied : Event → Reply

-- Any failure from here on stops the process.
unfoldable pub finish : Event → Option RuntimeError × Session → Reply × Session
finish event (some e, s) = (failed e, force_stop s)
finish event (none, s) = (replied event, s)

unfoldable pub scan : Scanned → Session → Reply × Session
scan cancelled s = (failed context_done, force_stop s)
scan stopped s = (failed runtime_stopped, force_stop s)
scan garbled s = (failed undecodable, force_stop s)
scan (received event) s = finish event (validate_event event s)

-- `written`: the process took the input, where there is one.
unfoldable pub proceed :
    Option Input → Bool → Scanned → Option RuntimeError × Session → Reply × Session
proceed input written scanned (some e, s) = (failed e, s)
proceed input written scanned (none, s) =
    if is_some input && not written then (failed write_failed, force_stop s) else scan scanned s

unfoldable pub exchange : Option Input → Bool → Scanned → Session → Reply × Session
exchange input written scanned s =
    if s.terminal
    then (failed session_ended, s)
    else proceed input written scanned (validate_input input s)

-- How the wait for the process ends.
pub data Waited : Type 0 where
  exited exited_badly timed_out : Waited

unfoldable pub wait_for : Waited → Session → Option RuntimeError × Session
wait_for exited s = (none, s)
wait_for exited_badly s = (if s.terminal then none else some runtime_stopped, s)
wait_for timed_out s = (some did_not_stop, force_stop s)

-- The method `Close`.
unfoldable pub close : Waited → Session → Option RuntimeError × Session
close outcome s =
    if s.closed
    then (none, s)
    else wait_for outcome (record (if s.terminal then s else force_stop s) { closed = true })
