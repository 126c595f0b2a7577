-- ===== src/ScriptEvent/Engine/Pump.antt =====
-- internal/scriptevent/engine.go: the loop that runs an event until it yields, its start and its
-- advance. The answers of the runtime are a list, over all the sessions that a call drives, and a
-- call whose answers run out waits. `none` is an exchange that failed.
use new_yokosuka_server.Base.{
  ℕ, suc, Bool, true, false, not, ◌&&◌, String, Option, none, some, List, [], ◌∷◌, ◌++◌, ◌==◌,
  is_some, if◌then◌else◌,
}
use new_yokosuka_server.Base.Int.{ℤ, pos}
use new_yokosuka_server.Base.Maps.{put}
use new_yokosuka_server.Floats.{Floats}
use new_yokosuka_server.ScriptRuntime.{Event, Input, continue_input, query_result_input}
use new_yokosuka_server.Store.Effects.{TraceStep, Payload, event_payload, input_payload}
use new_yokosuka_server.Store.Transaction.{
  Result, ok, err, Error, invalid, not_found, script_event_ended,
}
use new_yokosuka_server.ScriptEvent.State.{WorldFacts, stage}
use new_yokosuka_server.ScriptEvent.Query.{resolve_query}
use new_yokosuka_server.ScriptContent.Triggers.{TriggerSelector}
use new_yokosuka_server.ScriptEvent.Engine.{
  EventKind, at_node, at_query, at_command, at_line, at_options, at_cancel, at_end, unexpected,
  kind_of, Disposition, durable, completion, pass_trigger, external, unknown, disposition_of,
  present_options, declined_event, PublishedScriptEvent, Yield, ActiveEvent, World, Environment,
  new_active, yield_of, ended_yield,
}

abbrev pub is_ended : Error → Bool
is_ended e = elim e [ script_event_ended ↦ true | _ ↦ false ]

abbrev pub is_missing : Error → Bool
is_missing e = elim e [ not_found ↦ true | _ ↦ false ]

-- The error that `fail` returns, from its cause and what came of its record.
abbrev pub failure : Error → Result (Unit {0}) → Error
failure cause (ok _) = cause
failure cause (err e) = if is_ended e then cause else invalid

module _ {F : Floats} where
  abbrev pub run_of : ActiveEvent F → ℕ
  run_of active = active.published.run_id

  abbrev pub token_of : ActiveEvent F → String
  token_of active = active.published.lease_token

  abbrev pub trace_step : ActiveEvent F → ℤ → String → String → Payload → TraceStep
  trace_step active sequence direction kind payload = record {
    ordinal = pos (suc active.trace_ordinal);
    runtime_sequence = sequence;
    direction = direction;
    kind = kind;
    payload = payload;
  }

  abbrev pub traced : ActiveEvent F → Result (Unit {0}) → Result (ActiveEvent F)
  traced active (err e) = err e
  traced active (ok _) = ok (record active { trace_ordinal = suc active.trace_ordinal })

module _ {F : Floats} {R : Type 0} where
  -- The map finds the event as it is now.
  abbrev pub keep : ActiveEvent F → World F R → World F R
  keep active w = record w { active = put w.active (run_of active) (some active) }

  -- The method `remove`.
  abbrev pub remove : ActiveEvent F → World F R → World F R
  remove active w = record w { active = put w.active (run_of active) none }

  abbrev pub close_session : ActiveEvent F → World F R → World F R
  close_session active w = record w { sessions = put w.sessions (run_of active) false }

  -- Each call of `remove` is followed by the close of the session.
  abbrev pub drop_event : ActiveEvent F → World F R → World F R
  drop_event active w = close_session active (remove active w)

  abbrev pub open_session : ActiveEvent F → World F R → World F R
  open_session active w = record (keep active w) { sessions = put w.sessions (run_of active) true }

  abbrev pub with_repository : World F R → R → World F R
  with_repository w r = record w { repository = r }

abbrev pub Answer : Floats → Type 0 → Type 0
Answer F R = Result (Yield F) × World F R

-- What the loop does from an input, an event and the rest.
abbrev pub Loop : Floats → Type 0 → Type 0
Loop F R = Option Input → ActiveEvent F → World F R → Option (Answer F R)

module _ {F : Floats} {R : Type 0} (env : Environment F R) where
  -- The method `fail`.
  unfoldable pub fail : ActiveEvent F → String → Error → World F R → Answer F R
  fail active code cause w =
      let failed =
        env.repository.fail_event (run_of active) (token_of active) code (env.text_of cause)
          w.repository in
      (err (failure cause failed.0), with_repository (drop_event active w) failed.1)

  -- The method `recordTrace`.
  unfoldable pub record_trace :
      ActiveEvent F → ℤ → String → String → Payload → World F R → Result (ActiveEvent F) × World F R
  record_trace active sequence direction kind payload w =
      let recorded =
        env.repository.record_step (run_of active) (token_of active)
          (trace_step active sequence direction kind payload) w.repository in
      (traced active recorded.0, with_repository w recorded.1)

  unfoldable pub answer_query : Loop F R → Event → ActiveEvent F → World F R → Option (Answer F R)
  answer_query next event active w = elim (resolve_query F env.random active.state event) [
    | err e ↦ some (fail active "query" e w)
    | ok value ↦ elim event.query_id [
      -- The dereference of a missing identifier would panic; the session lets none through.
      | none ↦ none
      | some id ↦ next (some (query_result_input id value)) active w
    ]
  ]

  unfoldable pub stage_command : Loop F R → Event → ActiveEvent F → World F R → Option (Answer F R)
  stage_command next event active w = elim (stage F event active.state) [
    | err e ↦ some (fail active "effect" e w)
    | ok state ↦ next (some continue_input) (record active { state = state }) w
  ]

  abbrev pub not_started : PublishedScriptEvent F → R → R
  not_started published r =
      (env.repository.fail_event published.run_id published.lease_token "runtime_start"
        (env.text_of invalid) r).1

  -- A run whose runtime does not start fails; one that starts is active, with an open session.
  unfoldable pub start_candidate :
      Loop F R → ℕ → ℕ → TriggerSelector → WorldFacts F → List ℕ → World F R → Option (Answer F R)
  start_candidate next account_id c selector facts excluded w =
      let done = env.repository.start_event account_id c selector excluded w.repository in
      elim done.0 [
        | err e ↦ some (err e, with_repository w done.1)
        | ok published ↦
            if not (env.launches published)
            then some (err invalid, with_repository w (not_started published done.1))
            else let active = new_active F published facts excluded in
              next none active (open_session active (with_repository w done.1))
      ]

  -- What is yielded when no candidate is left, and the answer of the next one otherwise.
  unfoldable pub or_declined : Event → ActiveEvent F → ℕ → Option (Answer F R) → Option (Answer F R)
  or_declined event active revision none = none
  or_declined event active revision (some (ok yield, w)) = some (ok yield, w)
  or_declined event active revision (some (err e, w)) =
      if is_missing e
      then some (ok (ended_yield F active (declined_event event.sequence) revision), w)
      else some (err e, w)

  unfoldable pub pass : Loop F R → Event → ActiveEvent F → World F R → Option (Answer F R)
  pass next event active w =
      let event_run = active.published in
      if active.visible_yielded
      then some (fail active "late_trigger_pass" invalid w)
      else let done =
          env.repository.pass_event (run_of active) (token_of active) event_run.state.revision
            active.state.effects w.repository in
        elim done.0 [
          | err e ↦ some (fail active "pass" e (with_repository w done.1))
          | ok revision ↦ or_declined event active revision (
              start_candidate next event_run.account_id event_run.character_id event_run.trigger
                active.state.facts (active.excluded ++ (event_run.version_id ∷ []))
                (drop_event active (with_repository w done.1)))
        ]

  abbrev pub show_yield : ActiveEvent F → Yield F → World F R → Option (Answer F R)
  show_yield active yield w = some (ok yield, keep (record active { visible_yielded = true }) w)

  unfoldable pub run_command :
      Disposition → Loop F R → Event → ActiveEvent F → World F R → Option (Answer F R)
  run_command durable next event active w = stage_command next event active w
  run_command completion next event active w =
      next (some continue_input) (record active { completion_requested = true }) w
  run_command pass_trigger next event active w = pass next event active w
  run_command external next event active w = show_yield active (yield_of F active event) w
  run_command unknown next event active w = some (fail active "command" invalid w)

  unfoldable pub show_line : Event → ActiveEvent F → World F R → Option (Answer F R)
  show_line event active w =
      if is_some (active.lines event.line_id)
      then show_yield active (yield_of F active event) w
      else some (fail active "line" invalid w)

  unfoldable pub show_options : Event → ActiveEvent F → World F R → Option (Answer F R)
  show_options event active w = elim (present_options active.lines event.options) [
    | none ↦ some (fail active "options" invalid w)
    | some presented ↦
        show_yield active (record (yield_of F active event) { options = some presented }) w
  ]

  unfoldable pub cancel : Event → ActiveEvent F → World F R → Option (Answer F R)
  cancel event active w =
      let done = env.repository.cancel_event (run_of active) (token_of active) w.repository in
      elim done.0 [
        | err e ↦ some (fail active "cancel" e (with_repository w done.1))
        | ok _ ↦ some (ok (yield_of F active event), drop_event active (with_repository w done.1))
      ]

  unfoldable pub finish : Event → ActiveEvent F → World F R → Option (Answer F R)
  finish event active w =
      if not active.completion_requested
      then some (fail active "completion_required" invalid w)
      else let done =
          env.repository.complete_event (run_of active) (token_of active)
            active.published.state.revision active.state.effects w.repository in
        elim done.0 [
          | err e ↦ some (fail active "commit" e (with_repository w done.1))
          | ok revision ↦ some (
            ok (ended_yield F active event revision),
            drop_event active (with_repository w done.1),
          )
        ]

  unfoldable pub dispatch :
      EventKind → Loop F R → Event → ActiveEvent F → World F R → Option (Answer F R)
  dispatch at_node next event active w = next none active w
  dispatch at_query next event active w = answer_query next event active w
  dispatch at_command next event active w =
      run_command (disposition_of event.name) next event active w
  dispatch at_line next event active w = show_line event active w
  dispatch at_options next event active w = show_options event active w
  dispatch at_cancel next event active w = cancel event active w
  dispatch at_end next event active w = finish event active w
  dispatch unexpected next event active w = some (fail active "protocol" invalid w)

  -- The input is traced before it is sent.
  unfoldable pub trace_input :
      Option Input → ActiveEvent F → World F R → Result (ActiveEvent F) × World F R
  trace_input none active w = (ok active, w)
  trace_input (some input) active w =
      record_trace active active.last_runtime_sequence "controller" input.type_name
        (input_payload input) w

  -- The answer is traced before the engine acts on it.
  unfoldable pub receive : Loop F R → Option Event → ActiveEvent F → World F R → Option (Answer F R)
  receive next none active w = some (fail active "runtime" invalid w)
  receive next (some event) active w =
      let done =
        record_trace active event.sequence "runtime" event.type_name (event_payload event) w in
      elim done.0 [
        | err e ↦ some (fail active "trace" e done.1)
        | ok active ↦
            dispatch (kind_of event.type_name) next event
              (record active { last_runtime_sequence = event.sequence }) done.1
      ]

  unfoldable pub send : Loop F R → Option Event → Loop F R
  send next answer input active w =
      let done = trace_input input active w in
      elim done.0 [
        | err e ↦ some (fail active "trace" e done.1)
        | ok active ↦ receive next answer active done.1
      ]

  -- The method `pump`.
  unfoldable pub pump : List (Option Event) → Loop F R
  pump [] input active w = none
  pump (answer ∷ answers) input active w = send (pump answers) answer input active w

  -- The method `Start`.
  unfoldable pub start :
      List (Option Event) → ℕ → ℕ → TriggerSelector → WorldFacts F → World F R → Option (Answer F R)
  start answers account_id c selector facts w =
      start_candidate (pump answers) account_id c selector facts [] w

  -- The method `Advance`, of an event that is active.
  unfoldable pub advance_event :
      List (Option Event) → Input → ActiveEvent F → World F R → Option (Answer F R)
  advance_event answers input active w =
      let done = env.repository.renew_event (run_of active) (token_of active) w.repository in
      elim done.0 [
        | err e ↦ some (err e, drop_event active (with_repository w done.1))
        | ok _ ↦ pump answers (some input) active (with_repository w done.1)
      ]

  unfoldable pub advance : List (Option Event) → ℕ → ℕ → ℕ → Input → World F R → Option (Answer F R)
  advance answers account_id c run_id input w = elim (w.active run_id) [
    | none ↦ some (err not_found, w)
    | some active ↦
        if active.published.character_id == c && active.published.account_id == account_id
        then advance_event answers input active w
        else some (err not_found, w)
  ]
