-- ===== src/ScriptEvent/Engine/Tracked.antt =====
-- The engine's calls keep a session open just for the events that are active.
use new_yokosuka_server.Base.{
  ◌∙◌, ap, sym, ℕ, suc, ◌≡◌, refl, subst, true, false, Option, none, some, List, [], ◌∷◌, ◌++◌,
  arith, ==_iff, is_some, Bool-cases, inl, inr, ap,
}
use new_yokosuka_server.Floats.{Floats}
use new_yokosuka_server.ScriptRuntime.{Event, Input}
use new_yokosuka_server.Store.Transaction.{Result-cases, ok, err, invalid}
use new_yokosuka_server.Store.Effects.{event_payload, input_payload}
use new_yokosuka_server.ScriptEvent.State.{WorldFacts}
use new_yokosuka_server.ScriptContent.Triggers.{TriggerSelector}
use new_yokosuka_server.ScriptEvent.Engine.{
  EventKind, at_node, at_query, at_command, at_line, at_options, at_cancel, at_end, unexpected,
  kind_of, Disposition, durable, completion, pass_trigger, external, unknown, ActiveEvent, World,
  Environment, yield_of, disposition_of,
}
use new_yokosuka_server.ScriptEvent.Engine.Pump.{
  Answer, Loop, run_of, token_of, drop_event, with_repository, or_declined, is_missing, pass,
  run_command, dispatch, trace_step, trace_input, receive, send, record_trace, pump, start, fail,
  advance_event, advance,
}
use new_yokosuka_server.ScriptEvent.Engine.Sessions.{
  is_live, is_live_kind, IsTracked, IsSettled, Settles, tracks, drop_event-IsTracked, shown-Settles,
  removed-Settles,
}
use new_yokosuka_server.ScriptEvent.Engine.Settled.{
  AllSettle, Keeps, fail-Settles, answer_query-Settles, stage_command-Settles, show_line-Settles,
  show_options-Settles, cancel-Settles, finish-Settles, start_candidate-Settles,
}

module _ {F : Floats} {R : Type 0} where
  or_declined-Settles :
      (env : Environment F R) (event : Event) (active : ActiveEvent F) (revision : ℕ)
      (w : World F R) (answer : Option (Answer F R))
      → AllSettle (run_of active) (drop_event active w).active answer
      → AllSettle (run_of active) w.active (or_declined env event active revision answer)
  unfolding or_declined IsSettled is_live is_live_kind kind_of
  or_declined-Settles env event active revision w none h = tt
  or_declined-Settles env event active revision w (some (ok yield, w')) h = record {
    tracked = h.tracked;
    settled = h.settled;
  }
  or_declined-Settles env event active revision w (some (err e, w')) h =
      elim (Bool-cases (is_missing e)) [
        | inl missing ↦
            rw (AllSettle, or_declined, missing)
              (record {
                tracked = h.tracked;
                settled =
                    h.settled (run_of active)
                      (ground (arith, ==_iff (run_of active) (run_of active)));
              })
        | inr other ↦
            rw (AllSettle, or_declined, other)
              (record {
                tracked = h.tracked;
                settled = λ id gone. h.settled id (ground (arith, gone));
              })
      ]

  module _ (env : Environment F R) where
    pass-Settles :
        (next : Loop F R) (event : Event) (active : ActiveEvent F) (w : World F R)
        → Keeps next
        → IsTracked F R w
        → AllSettle (run_of active) w.active (pass env next event active w)
    unfolding pass fail
    pass-Settles next event active w n t =
        let done =
          env.repository.pass_event (run_of active) active.published.lease_token
            active.published.state.revision active.state.effects w.repository in
        elim (Bool-cases active.visible_yielded) [
          | inl late ↦
              rw (AllSettle, pass, late) (fail-Settles env active "late_trigger_pass" invalid w t)
          | inr early ↦ elim (Result-cases done.0) [
            | inr (e, failed) ↦
                rw (AllSettle, pass, early, failed)
                  (fail-Settles env active "pass" e (with_repository w done.1) (tracks t done.1))
            | inl (revision, passed) ↦
                let w' = with_repository w done.1 in
                rw (AllSettle, pass, early, passed)
                  (or_declined-Settles env event active revision w' _ (
                    start_candidate-Settles env next active.published.account_id
                      active.published.character_id active.published.trigger active.state.facts
                      (active.excluded ++ (active.published.version_id ∷ [])) (run_of active)
                      (drop_event active w') n (drop_event-IsTracked active (tracks t done.1))
                      (ground (arith, ==_iff (run_of active) (run_of active)))))
          ]
        ]

    run_command-Settles :
        (disposition : Disposition) (next : Loop F R) (event : Event) (active : ActiveEvent F)
        (w : World F R)
        → Keeps next
        → kind_of event.type_name ≡ at_command
        → IsTracked F R w
        → w.sessions (run_of active) ≡ true
        → AllSettle (run_of active) w.active (run_command env disposition next event active w)
    unfolding run_command is_live is_live_kind
    run_command-Settles durable next event active w n kind t opened =
        stage_command-Settles env next event active w n t opened
    run_command-Settles completion next event active w n kind t opened =
        n.settles _ (record active { completion_requested = true }) w t opened
    run_command-Settles pass_trigger next event active w n kind t opened =
        pass-Settles next event active w n t
    run_command-Settles external next event active w n kind t opened =
        shown-Settles active (yield_of F active event) w refl (rw kind refl) t opened
    run_command-Settles unknown next event active w n kind t opened =
        fail-Settles env active "command" invalid w t

    dispatch-Settles :
        (kind : EventKind) (next : Loop F R) (event : Event) (active : ActiveEvent F)
        (w : World F R)
        → Keeps next
        → kind_of event.type_name ≡ kind
        → IsTracked F R w
        → w.sessions (run_of active) ≡ true
        → AllSettle (run_of active) w.active (dispatch env kind next event active w)
    unfolding dispatch
    dispatch-Settles at_node next event active w n kind t opened = n.settles none active w t opened
    dispatch-Settles at_query next event active w n kind t opened =
        answer_query-Settles env next event active w n t opened
    dispatch-Settles at_command next event active w n kind t opened =
        run_command-Settles (disposition_of event.name) next event active w n kind t opened
    dispatch-Settles at_line next event active w n kind t opened =
        show_line-Settles env event active w kind t opened
    dispatch-Settles at_options next event active w n kind t opened =
        show_options-Settles env event active w kind t opened
    dispatch-Settles at_cancel next event active w n kind t opened =
        cancel-Settles env event active w kind t
    dispatch-Settles at_end next event active w n kind t opened =
        finish-Settles env event active w kind t
    dispatch-Settles unexpected next event active w n kind t opened =
        fail-Settles env active "protocol" invalid w t

    -- A trace changes the repository only.
    receive-Settles :
        (next : Loop F R) (answer : Option Event) (active : ActiveEvent F) (w : World F R)
        → Keeps next
        → IsTracked F R w
        → w.sessions (run_of active) ≡ true
        → AllSettle (run_of active) w.active (receive env next answer active w)
    unfolding receive record_trace
    receive-Settles next none active w n t opened = fail-Settles env active "runtime" invalid w t
    receive-Settles next (some event) active w n t opened =
        let recorded =
          env.repository.record_step (run_of active) (token_of active)
            (trace_step active event.sequence "runtime" event.type_name (event_payload event))
            w.repository in
        let w' = with_repository w recorded.1 in
        elim (Result-cases recorded.0) [
          | inr (e, refused) ↦
              rw (AllSettle, receive, record_trace, refused)
                (fail-Settles env active "trace" e w' (tracks t recorded.1))
          | inl (_, kept) ↦
              rw (AllSettle, receive, record_trace, kept)
                (dispatch-Settles (kind_of event.type_name) next event
                  (record active {
                    trace_ordinal = suc active.trace_ordinal;
                    last_runtime_sequence = event.sequence;
                  })
                  w' n refl (tracks t recorded.1) opened)
        ]

    sent-Settles :
        (next : Loop F R) (answer : Option Event) (input : Option Input) (active : ActiveEvent F)
        (w : World F R)
        → Keeps next
        → IsTracked F R w
        → w.sessions (run_of active) ≡ true
        → AllSettle (run_of active) w.active (send env next answer input active w)
    unfolding send trace_input record_trace
    sent-Settles next answer none active w n t opened =
        receive-Settles next answer active w n t opened
    sent-Settles next answer (some input) active w n t opened =
        let recorded =
          env.repository.record_step (run_of active) (token_of active)
            (trace_step active active.last_runtime_sequence "controller" input.type_name
              (input_payload input))
            w.repository in
        let w' = with_repository w recorded.1 in
        elim (Result-cases recorded.0) [
          | inr (e, refused) ↦
              rw (AllSettle, send, trace_input, record_trace, refused)
                (fail-Settles env active "trace" e w' (tracks t recorded.1))
          | inl (_, kept) ↦
              rw (AllSettle, send, trace_input, record_trace, kept)
                (receive-Settles next answer
                  (record active { trace_ordinal = suc active.trace_ordinal }) w' n
                  (tracks t recorded.1) opened)
        ]

    pub pump-Keeps : (answers : List (Option Event)) → Keeps (pump env answers)
    unfolding pump
    pump-Keeps [] = record { settles = λ input active w t opened. tt }
    pump-Keeps (answer ∷ answers) = record {
      settles = λ input active w t opened.
          sent-Settles (pump env answers) answer input active w (pump-Keeps answers) t opened;
    }

    -- In an engine whose open sessions are those of the events that are active, a start that
    -- answers leaves them so. If it yields, the event of the yield is active just when the yield is
    -- a line, a choice of options or a command, which wait for the player; if it fails, no event is
    -- active that was not active before.
    pub start-Settles :
        (answers : List (Option Event)) (account_id c : ℕ) (selector : TriggerSelector)
        (facts : WorldFacts F) (run : ℕ) (w : World F R) (answer : Answer F R)
        → IsTracked F R w
        → is_some (w.active run) ≡ false
        → start env answers account_id c selector facts w ≡ some answer
        → Settles run w.active answer
    unfolding start
    start-Settles answers account_id c selector facts run w answer t idle h =
        subst (AllSettle run w.active) h (
          start_candidate-Settles env (pump env answers) account_id c selector facts [] run w
            (pump-Keeps answers) t idle)

    pub advance_event-Settles :
        (answers : List (Option Event)) (input : Input) (active : ActiveEvent F) (w : World F R)
        → IsTracked F R w
        → w.sessions (run_of active) ≡ true
        → AllSettle (run_of active) w.active (advance_event env answers input active w)
    unfolding advance_event
    advance_event-Settles answers input active w t opened =
        let done = env.repository.renew_event (run_of active) (token_of active) w.repository in
        let w' = with_repository w done.1 in
        elim (Result-cases done.0) [
          | inr (e, ended) ↦
              rw (AllSettle, advance_event, ended) (removed-Settles active e w done.1 t)
          | inl (_, renewed) ↦
              rw (AllSettle, advance_event, renewed)
                ((pump-Keeps answers).settles (some input) active w' (tracks t done.1) opened)
        ]

    -- In an engine whose open sessions are those of the events that are active, an advance of an
    -- active event by its character and account that answers leaves them so. If it yields, the event
    -- of the yield is active just when the yield is a line, a choice of options or a command, which
    -- wait for the player; if it fails, neither the event is active nor one that was not before.
    pub advance-Settles :
        (answers : List (Option Event)) (run_id : ℕ) (input : Input) (active : ActiveEvent F)
        (w : World F R) (answer : Answer F R)
        → IsTracked F R w
        → w.active run_id ≡ some active
        → advance env answers active.published.account_id active.published.character_id run_id input
            w
          ≡ some answer
        → Settles run_id w.active answer
    unfolding advance
    advance-Settles answers run_id input active w answer t found h =
        let account = active.published.account_id in
        let c = active.published.character_id in
        let key = t.keyed run_id active found in
        let done : advance_event env answers input active w ≡ some answer =
          ground (arith, found, h, ==_iff account account, ==_iff c c) in
        subst (AllSettle run_id w.active) done (
          subst (λ run. AllSettle run w.active (advance_event env answers input active w)) key
            (advance_event-Settles answers input active w t
              (ap w.sessions key ∙ sym (t.same run_id) ∙ ap is_some found)))
