-- ===== src/ScriptEvent/Engine.antt =====
-- internal/scriptevent/engine.go: the events that are active, and the parts of the loop that runs
-- one. The repository is an interface, and so is the start of a runtime. What is only passed on (the
-- identifier and the slug of a script, the text of substitutions) is left out, and so are the locks:
-- one call at a time works on an event. An error that `fmt.Errorf` makes is `invalid`.
pub mod Pump
pub mod Sessions
pub mod Settled
pub mod Tracked
pub mod Reached
pub mod Answers
pub mod Calls
pub mod Kinds
pub mod Commits
pub mod Others
pub mod Permitted
pub mod Guarded
pub mod Looped
pub mod Justified
pub mod Logged
pub mod Stored
pub mod Examples
use new_yokosuka_server.Base.{
  ℕ, suc, ◌+◌, Bool, true, false, not, ◌&&◌, ◌||◌, String, Option, none, some, List, [], ◌∷◌, ◌==◌,
  str_eq, is_some, if◌then◌else◌,
}
use new_yokosuka_server.Base.Int.{ℤ, pos, eq_ℤ}
use new_yokosuka_server.Base.Maps.{put, put_text}
use new_yokosuka_server.Floats.{Floats}
use new_yokosuka_server.ScriptContent.Triggers.{TriggerSelector}
use new_yokosuka_server.ScriptRuntime.{Event, RuntimeOption}
use new_yokosuka_server.Store.Effects.{ScriptEffect, TraceStep, durable_of}
use new_yokosuka_server.Store.Effects.Finish.{CharacterScriptState}
use new_yokosuka_server.Store.Transaction.{
  Result, ok, err, Error, invalid, not_found, script_event_ended,
}
use new_yokosuka_server.ScriptEvent.State.{EventState, WorldFacts}

-- A line of a compiled script, without its place in the file.
pub record CompiledLine : Type 0 where
  pub id : String
  pub text : Option String

pub record PresentedOption : Type 0 where
  pub id : ℤ
  pub is_available : Bool
  pub line : CompiledLine

-- The types of an event of the runtime.
pub data EventKind : Type 0 where
  at_node at_query at_command at_line at_options at_cancel at_end unexpected : EventKind

unfoldable pub kind_of : String → EventKind
kind_of type_name =
    if str_eq type_name "nodeStart" || str_eq type_name "nodeComplete"
    then at_node
    else if str_eq type_name "query"
    then at_query
    else if str_eq type_name "command"
    then at_command
    else if str_eq type_name "line"
    then at_line
    else if str_eq type_name "options"
    then at_options
    else if str_eq type_name "cancelled"
    then at_cancel
    else if str_eq type_name "complete"
    then at_end
    else unexpected

-- What the engine does with a command.
pub data Disposition : Type 0 where
  durable completion pass_trigger external unknown : Disposition

abbrev pub is_external : String → Bool
is_external name =
    str_eq name "play_player_motion"
    || str_eq name "look_at_actor"
    || str_eq name "clear_actor_look"
    || str_eq name "start_camera"
    || str_eq name "stop_camera"
    || str_eq name "play_sequence"
    || str_eq name "start_activity"

unfoldable pub disposition_of : String → Disposition
disposition_of name =
    if is_some (durable_of name)
    then durable
    else if str_eq name "complete"
    then completion
    else if str_eq name "pass_trigger"
    then pass_trigger
    else if is_external name
    then external
    else unknown

abbrev pub mem_ℤ : ℤ → List ℤ → Bool
mem_ℤ z [] = false
mem_ℤ z (y ∷ ys) = eq_ℤ z y || mem_ℤ z ys

abbrev pub any_available : List RuntimeOption → Bool
any_available [] = false
any_available (option ∷ rest) = option.is_available || any_available rest

-- An option whose line has a text.
abbrev pub present_one : RuntimeOption → Option CompiledLine → Option PresentedOption
present_one option none = none
present_one option (some line) =
    if is_some line.text
    then some (record { id = option.id; is_available = option.is_available; line = line })
    else none

-- The options in their order, none of them under an identifier that was seen.
unfoldable pub present :
    (String → Option CompiledLine) → List ℤ → List RuntimeOption → Option (List PresentedOption)
present lines seen [] = some []
present lines seen (option ∷ rest) =
    let later = present lines (option.id ∷ seen) rest in
    if mem_ℤ option.id seen then none else elim (present_one option (lines option.line_id)) [
      | none ↦ none
      | some presented ↦ elim later [ none ↦ none | some others ↦ some (presented ∷ others) ]
    ]

unfoldable pub present_options :
    (String → Option CompiledLine) → List RuntimeOption → Option (List PresentedOption)
unfolding present
present_options lines given =
    let presented = present lines [] given in if any_available given then presented else none

-- The event of a trigger that every candidate declined.
abbrev pub declined_event : ℤ → Event
declined_event sequence = record {
  type_name = "declined";
  sequence = sequence;
  query_id = none;
  name = "pass_trigger";
  node = "";
  line_id = "";
  arguments = [];
  options = [];
  message = "";
}

module _ (F : Floats) where
  pub record PublishedScriptEvent : Type 0 where
    pub run_id : ℕ
    pub lease_token : String
    pub account_id : ℕ
    pub character_id : ℕ
    pub version_id : ℕ
    pub entry_node : String
    pub program : List ℕ
    pub trigger : TriggerSelector
    pub lines : List CompiledLine
    pub state : CharacterScriptState F

  pub record Repository (R : Type 0) : Type 0 where
    pub start_event : ℕ → ℕ → TriggerSelector → List ℕ → R → Result PublishedScriptEvent × R
    pub renew_event : ℕ → String → R → Result (Unit {0}) × R
    pub cancel_event : ℕ → String → R → Result (Unit {0}) × R
    pub fail_event : ℕ → String → String → String → R → Result (Unit {0}) × R
    pub complete_event : ℕ → String → ℕ → List ScriptEffect → R → Result ℕ × R
    pub pass_event : ℕ → String → ℕ → List ScriptEffect → R → Result ℕ × R
    pub record_step : ℕ → String → TraceStep → R → Result (Unit {0}) × R

  pub record Yield : Type 0 where
    pub run_id : ℕ
    pub version_id : ℕ
    pub runtime_event : Event
    pub line : Option CompiledLine
    pub options : Option (List PresentedOption)
    pub state : Option (CharacterScriptState F)

  pub record ActiveEvent : Type 0 where
    pub published : PublishedScriptEvent
    pub state : EventState F
    pub completion_requested : Bool
    pub visible_yielded : Bool
    pub excluded : List ℕ
    pub lines : String → Option CompiledLine
    pub trace_ordinal : ℕ
    pub last_runtime_sequence : ℤ

  -- The repository, the active events by their run, and the runs whose session is open.
  pub record World (R : Type 0) : Type 0 where
    pub repository : R
    pub active : ℕ → Option ActiveEvent
    pub sessions : ℕ → Bool

  abbrev pub index_lines : List CompiledLine → String → Option CompiledLine
  index_lines [] id = none
  index_lines (line ∷ lines) id =
      let later = index_lines lines id in
      elim later [ some found ↦ some found | none ↦ if str_eq id line.id then some line else none ]

  abbrev pub new_active : PublishedScriptEvent → WorldFacts F → List ℕ → ActiveEvent
  new_active published facts excluded = record {
    published = published;
    state = record { saved = published.state; facts = facts; effects = [] };
    completion_requested = false;
    visible_yielded = false;
    excluded = excluded;
    lines = index_lines published.lines;
    trace_ordinal = 0;
    last_runtime_sequence = pos 0;
  }

  abbrev pub line_of : ActiveEvent → Event → Option CompiledLine
  line_of active event = if str_eq event.type_name "line" then active.lines event.line_id else none

  -- The method `yield`.
  abbrev pub yield_of : ActiveEvent → Event → Yield
  yield_of active event = record {
    run_id = active.published.run_id;
    version_id = active.published.version_id;
    runtime_event = event;
    line = line_of active event;
    options = none;
    state = none;
  }

  -- With the state at its end, in the new revision.
  abbrev pub ended_yield : ActiveEvent → Event → ℕ → Yield
  ended_yield active event revision = record (yield_of active event) {
    state = some (record active.state.saved { revision = revision });
  }

  -- What the engine is made with: the repository, whether the runtime of an event starts, the
  -- authoritative random source, and the text of an error.
  pub record Environment (R : Type 0) : Type 0 where
    pub repository : Repository R
    pub launches : PublishedScriptEvent → Bool
    pub random : Option (ℤ → ℤ → Option ℤ)
    pub text_of : Error → String
