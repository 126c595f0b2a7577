-- ===== src/ScriptEvent/Engine/Answers.antt =====
-- When the loop of the engine comes to an end.
use new_yokosuka_server.Base.{
  ℕ, ◌≡◌, refl, Bool, true, false, ◌&&◌, ◌||◌, Option, none, some, List, [], ◌∷◌, ◌++◌, arith,
  is_some, Bool-cases, Option-cases, inl, inr,
}
use new_yokosuka_server.Floats.{Floats}
use new_yokosuka_server.ScriptRuntime.{Event, Input}
use new_yokosuka_server.Store.Transaction.{Result-cases, ok, err}
use new_yokosuka_server.Store.Effects.{event_payload, input_payload}
use new_yokosuka_server.ScriptEvent.State.{WorldFacts, stage}
use new_yokosuka_server.ScriptEvent.Query.{resolve_query}
use new_yokosuka_server.ScriptContent.Triggers.{TriggerSelector}
use new_yokosuka_server.ScriptEvent.Engine.{
  at_node, at_query, at_command, kind_of, Disposition, external, unknown, disposition_of,
  ActiveEvent, World, Environment, EventKind, present_options, at_line, at_options, at_cancel,
  at_end, unexpected, durable, completion, pass_trigger,
}
use new_yokosuka_server.ScriptEvent.Engine.Pump.{
  Answer, Loop, run_of, token_of, drop_event, with_repository, fail, answer_query, stage_command,
  start_candidate, or_declined, is_missing, pass, show_line, show_options, cancel, finish,
  run_command, dispatch, receive, send, pump, start, record_trace, trace_input, trace_step,
}

-- A command after which the loop does not go on.
unfoldable pub is_last_command : Disposition → Bool
is_last_command external = true
is_last_command unknown = true
is_last_command _ = false

unfoldable pub is_last_event : EventKind → Event → Bool
is_last_event at_node event = false
is_last_event at_query event = false
is_last_event at_command event = is_last_command (disposition_of event.name)
is_last_event _ event = true

-- An answer of the runtime after which the loop does not go on: a failed exchange, a line, options,
-- an end, an unknown event, or a command that the player sees or that nobody knows.
unfoldable pub is_last : Option Event → Bool
is_last none = true
is_last (some event) = is_last_event (kind_of event.type_name) event

unfoldable pub has_identifier_at : EventKind → Event → Bool
has_identifier_at at_query event = is_some event.query_id
has_identifier_at _ event = true

-- A query carries its identifier, as the session requires.
unfoldable pub has_identifier : Option Event → Bool
has_identifier none = true
has_identifier (some event) = has_identifier_at (kind_of event.type_name) event

abbrev pub any_last : List (Option Event) → Bool
any_last [] = false
any_last (answer ∷ answers) = is_last answer || any_last answers

abbrev pub all_identified : List (Option Event) → Bool
all_identified [] = true
all_identified (answer ∷ answers) = has_identifier answer && all_identified answers

module _ {F : Floats} {R : Type 0} (env : Environment F R) where
  -- From any input, event and state it answers.
  record Answers (next : Loop F R) : Type 0 where
    answers :
        (input : Option Input) (active : ActiveEvent F) (w : World F R)
        → is_some (next input active w) ≡ true

  query_answers :
      (next : Loop F R) (event : Event) (active : ActiveEvent F) (w : World F R)
      → is_some event.query_id ≡ true
      → Answers next
      → is_some (answer_query env next event active w) ≡ true
  unfolding answer_query
  query_answers next event active w identified n =
      elim (Result-cases (resolve_query F env.random active.state event)) [
        | inr (e, refused) ↦ rw (answer_query, refused) refl
        | inl (value, resolved) ↦ elim (Option-cases event.query_id) [
          | inl missing ↦ absurd (ground (arith, missing, identified))
          | inr (id, found) ↦ rw (answer_query, resolved, found) (n.answers _ active w)
        ]
      ]

  stage_answers :
      (next : Loop F R) (event : Event) (active : ActiveEvent F) (w : World F R)
      → Answers next
      → is_some (stage_command env next event active w) ≡ true
  unfolding stage_command
  stage_answers next event active w n = elim (Result-cases (stage F event active.state)) [
    | inr (e, refused) ↦ rw (stage_command, refused) refl
    | inl (state, staged) ↦
        rw (stage_command, staged) (n.answers _ (record active { state = state }) w)
  ]

  start_candidate_answers :
      (next : Loop F R) (account_id c : ℕ) (selector : TriggerSelector) (facts : WorldFacts F)
      (excluded : List ℕ) (w : World F R)
      → Answers next
      → is_some (start_candidate env next account_id c selector facts excluded w) ≡ true
  unfolding start_candidate
  start_candidate_answers next account_id c selector facts excluded w n =
      let done = env.repository.start_event account_id c selector excluded w.repository in
      elim (Result-cases done.0) [
        | inr (e, refused) ↦ rw (start_candidate, refused) refl
        | inl (published, begun) ↦ elim (Bool-cases (env.launches published)) [
          | inr dead ↦ rw (start_candidate, begun, dead) refl
          | inl alive ↦ rw (start_candidate, begun, alive) (n.answers none _ _)
        ]
      ]

  or_declined_answers :
      (event : Event) (active : ActiveEvent F) (revision : ℕ) (answer : Option (Answer F R))
      → is_some answer ≡ true
      → is_some (or_declined env event active revision answer) ≡ true
  unfolding or_declined
  or_declined_answers event active revision none h = absurd (cc)
  or_declined_answers event active revision (some (ok yield, w)) h = refl
  or_declined_answers event active revision (some (err e, w)) h = elim (Bool-cases (is_missing e)) [
    | inl missing ↦ rw (or_declined, missing) refl
    | inr other ↦ rw (or_declined, other) refl
  ]

  pass_answers :
      (next : Loop F R) (event : Event) (active : ActiveEvent F) (w : World F R)
      → Answers next
      → is_some (pass env next event active w) ≡ true
  unfolding pass fail
  pass_answers next event active w n =
      let done =
        env.repository.pass_event (run_of active) (token_of active) active.published.state.revision
          active.state.effects w.repository in
      elim (Bool-cases active.visible_yielded) [
        | inl late ↦ rw (pass, late) refl
        | inr early ↦ elim (Result-cases done.0) [
          | inr (e, failed) ↦ rw (pass, early, failed) refl
          | inl (revision, passed) ↦
              rw (pass, early, passed)
                (or_declined_answers event active revision _ (
                  start_candidate_answers next active.published.account_id
                    active.published.character_id active.published.trigger active.state.facts
                    (active.excluded ++ (active.published.version_id ∷ []))
                    (drop_event active (with_repository w done.1)) n))
        ]
      ]

  -- The rest answers where the loop goes on.
  record GoesOn (last : Bool) (next : Loop F R) : Type 0 where
    goes_on : last ≡ false → Answers next

  line_answers :
      (event : Event) (active : ActiveEvent F) (w : World F R)
      → is_some (show_line env event active w) ≡ true
  unfolding show_line fail
  line_answers event active w = elim (Bool-cases (is_some (active.lines event.line_id))) [
    | inl found ↦ rw (show_line, found) refl
    | inr missing ↦ rw (show_line, missing) refl
  ]

  options_answers :
      (event : Event) (active : ActiveEvent F) (w : World F R)
      → is_some (show_options env event active w) ≡ true
  unfolding show_options fail
  options_answers event active w =
      elim (Option-cases (present_options active.lines event.options)) [
        | inl refused ↦ rw (show_options, refused) refl
        | inr (presented, found) ↦ rw (show_options, found) refl
      ]

  cancel_answers :
      (event : Event) (active : ActiveEvent F) (w : World F R)
      → is_some (cancel env event active w) ≡ true
  unfolding cancel fail
  cancel_answers event active w =
      let done = env.repository.cancel_event (run_of active) (token_of active) w.repository in
      elim (Result-cases done.0) [
        | inr (e, failed) ↦ rw (cancel, failed) refl
        | inl (_, cancelled) ↦ rw (cancel, cancelled) refl
      ]

  finish_answers :
      (event : Event) (active : ActiveEvent F) (w : World F R)
      → is_some (finish env event active w) ≡ true
  unfolding finish fail
  finish_answers event active w =
      let done =
        env.repository.complete_event (run_of active) (token_of active)
          active.published.state.revision active.state.effects w.repository in
      elim (Bool-cases active.completion_requested) [
        | inr unasked ↦ rw (finish, unasked) refl
        | inl asked ↦ elim (Result-cases done.0) [
          | inr (e, failed) ↦ rw (finish, asked, failed) refl
          | inl (revision, finished) ↦ rw (finish, asked, finished) refl
        ]
      ]

  command_answers :
      (disposition : Disposition) (next : Loop F R) (event : Event) (active : ActiveEvent F)
      (w : World F R)
      → GoesOn (is_last_command disposition) next
      → is_some (run_command env disposition next event active w) ≡ true
  unfolding run_command is_last_command
  command_answers durable next event active w n = stage_answers next event active w (n.goes_on refl)
  command_answers completion next event active w n = (n.goes_on refl).answers _ _ w
  command_answers pass_trigger next event active w n =
      pass_answers next event active w (n.goes_on refl)
  command_answers external next event active w n = refl
  command_answers unknown next event active w n = refl

  dispatch_answers :
      (kind : EventKind) (next : Loop F R) (event : Event) (active : ActiveEvent F) (w : World F R)
      → GoesOn (is_last_event kind event) next
      → has_identifier_at kind event ≡ true
      → is_some (dispatch env kind next event active w) ≡ true
  unfolding dispatch is_last_event has_identifier_at
  dispatch_answers at_node next event active w n h = (n.goes_on refl).answers none active w
  dispatch_answers at_query next event active w n h =
      query_answers next event active w h (n.goes_on refl)
  dispatch_answers at_command next event active w n h =
      command_answers (disposition_of event.name) next event active w n
  dispatch_answers at_line next event active w n h = line_answers event active w
  dispatch_answers at_options next event active w n h = options_answers event active w
  dispatch_answers at_cancel next event active w n h = cancel_answers event active w
  dispatch_answers at_end next event active w n h = finish_answers event active w
  dispatch_answers unexpected next event active w n h = refl

  receive_answers :
      (next : Loop F R) (answer : Option Event) (active : ActiveEvent F) (w : World F R)
      → GoesOn (is_last answer) next
      → has_identifier answer ≡ true
      → is_some (receive env next answer active w) ≡ true
  unfolding receive record_trace is_last has_identifier
  receive_answers next none active w n h = refl
  receive_answers next (some event) active w n h =
      let recorded =
        env.repository.record_step (run_of active) (token_of active)
          (trace_step active event.sequence "runtime" event.type_name (event_payload event))
          w.repository in
      elim (Result-cases recorded.0) [
        | inr (e, refused) ↦ rw (receive, record_trace, refused) refl
        | inl (_, kept) ↦
            rw (receive, record_trace, kept)
              (dispatch_answers (kind_of event.type_name) next event _ _ n h)
      ]

  send_answers :
      (next : Loop F R) (answer : Option Event) (input : Option Input) (active : ActiveEvent F)
      (w : World F R)
      → GoesOn (is_last answer) next
      → has_identifier answer ≡ true
      → is_some (send env next answer input active w) ≡ true
  unfolding send trace_input record_trace
  send_answers next answer none active w n h = receive_answers next answer active w n h
  send_answers next answer (some input) active w n h =
      let recorded =
        env.repository.record_step (run_of active) (token_of active)
          (trace_step active active.last_runtime_sequence "controller" input.type_name
            (input_payload input))
          w.repository in
      elim (Result-cases recorded.0) [
        | inr (e, refused) ↦ rw (send, trace_input, record_trace, refused) refl
        | inl (_, kept) ↦
            rw (send, trace_input, record_trace, kept) (receive_answers next answer _ _ n h)
      ]

  pump_answers :
      (answers : List (Option Event))
      → any_last answers ≡ true
      → all_identified answers ≡ true
      → Answers (pump env answers)
  unfolding pump
  pump_answers [] last h = absurd (cc)
  pump_answers (answer ∷ answers) last h = record {
    answers = λ input active w.
        send_answers (pump env answers) answer input active w
          (record {
            goes_on = λ more. pump_answers answers (ground (arith, last, more)) (ground (arith, h));
          })
          (ground (arith, h));
  }

  -- A start comes to an answer, through however many candidates that pass, if the queries of the
  -- runtime have their identifiers and one of its answers is a failed exchange, a line, a choice of
  -- options, an end, an unknown event, or a command that is unknown or that the player sees.
  pub start_answers :
      (answers : List (Option Event)) (account_id c : ℕ) (selector : TriggerSelector)
      (facts : WorldFacts F) (w : World F R)
      → any_last answers ≡ true
      → all_identified answers ≡ true
      → is_some (start env answers account_id c selector facts w) ≡ true
  unfolding start
  start_answers answers account_id c selector facts w last h =
      start_candidate_answers (pump env answers) account_id c selector facts [] w
        (pump_answers answers last h)
