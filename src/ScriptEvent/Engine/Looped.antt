-- ===== src/ScriptEvent/Engine/Looped.antt =====
-- The loop of the engine, and its two calls, keep the log justified.
use new_yokosuka_server.Base.{
  ℕ, suc, refl, Option, none, some, List, [], ◌∷◌, ◌==◌, ◌&&◌, arith, Bool-cases, Option-cases, inl,
  inr, if_true,
}
use new_yokosuka_server.Base.Int.{ℤ}
use new_yokosuka_server.Floats.{Floats}
use new_yokosuka_server.ScriptRuntime.{Event, Input}
use new_yokosuka_server.Store.Effects.{event_payload, input_payload}
use new_yokosuka_server.Store.Transaction.{Result-cases, invalid}
use new_yokosuka_server.ScriptEvent.State.{WorldFacts}
use new_yokosuka_server.ScriptContent.Triggers.{TriggerSelector}
use new_yokosuka_server.ScriptEvent.Engine.{kind_of, ActiveEvent, Environment}
use new_yokosuka_server.ScriptEvent.Engine.Calls.{Call, logged}
use new_yokosuka_server.ScriptEvent.Engine.Commits.{Played}
use new_yokosuka_server.ScriptEvent.Engine.Others.{
  SoundBut, IsSound, but_one, heard-SoundBut, dropped-IsSound,
}
use new_yokosuka_server.ScriptEvent.Engine.Guarded.{dispatch-AllSound}
use new_yokosuka_server.ScriptEvent.Engine.Permitted.{
  Logged, log_of, AllSound, KeepsSound, fail-IsSound, start_candidate-AllSound,
}
use new_yokosuka_server.ScriptEvent.Engine.Pump.{
  Loop, run_of, token_of, with_repository, trace_step, trace_input, receive, send, record_trace,
  pump, start, advance, advance_event,
}

module _ {F : Floats} {R : Type 0} (env : Environment F R) where
  abbrev Next : Type 0
  Next = Loop F (R × List (Call F))

  -- The trace does not change what was said.
  retraced :
      (log : List (Call F)) (active : ActiveEvent F) (ordinal : ℕ) (sequence : ℤ)
      → Played log active
      → Played log (record active { trace_ordinal = ordinal; last_runtime_sequence = sequence })
  retraced log active ordinal sequence p = record {
    events = p.events;
    found = p.found;
    begin = p.begin;
    from_state = p.from_state;
    from_none = p.from_none;
    staged = p.staged;
    asked = p.asked;
    shown = p.shown;
  }

  receive-AllSound :
      (next : Next) (answer : Option Event) (active : ActiveEvent F) (w : Logged env)
      → KeepsSound env next
      → SoundBut (run_of active) (log_of env w) w.active
      → Played (log_of env w) active
      → AllSound env (receive (logged F env) next answer active w)
  unfolding receive record_trace
  receive-AllSound next none active w n s p = fail-IsSound env active "runtime" invalid w s
  receive-AllSound next (some event) active w n s p =
      let step = trace_step active event.sequence "runtime" event.type_name (event_payload event) in
      let recorded =
        (logged F env).repository.record_step (run_of active) (token_of active) step w.repository in
      let w' = with_repository w recorded.1 in
      let s' = heard-SoundBut (run_of active) event (log_of env w) w.active s in
      let traced_event = record active {
        trace_ordinal = suc active.trace_ordinal;
        last_runtime_sequence = event.sequence;
      } in
      elim (Result-cases recorded.0) [
        | inr (e, refused) ↦
            rw (AllSound, receive, record_trace, refused) (fail-IsSound env active "trace" e w' s')
        | inl (_, kept) ↦
            rw (AllSound, receive, record_trace, kept)
              (dispatch-AllSound env (kind_of event.type_name) next event traced_event w' refl n s'
                (record {
                  before = log_of env w;
                  played =
                      retraced (log_of env w) active (suc active.trace_ordinal) event.sequence p;
                  goes_on = if_true _ _ (run_of active == run_of active) (ground arith);
                }))
      ]

  send-AllSound :
      (next : Next) (answer : Option Event) (input : Option Input) (active : ActiveEvent F)
      (w : Logged env)
      → KeepsSound env next
      → SoundBut (run_of active) (log_of env w) w.active
      → Played (log_of env w) active
      → AllSound env (send (logged F env) next answer input active w)
  unfolding send trace_input record_trace
  send-AllSound next answer none active w n s p = receive-AllSound next answer active w n s p
  send-AllSound next answer (some input) active w n s p =
      let step =
        trace_step active active.last_runtime_sequence "controller" input.type_name
          (input_payload input) in
      let recorded =
        (logged F env).repository.record_step (run_of active) (token_of active) step w.repository in
      let w' = with_repository w recorded.1 in
      let traced_event = record active { trace_ordinal = suc active.trace_ordinal } in
      elim (Result-cases recorded.0) [
        | inr (e, refused) ↦
            rw (AllSound, send, trace_input, record_trace, refused)
              (fail-IsSound env active "trace" e w' s)
        | inl (_, kept) ↦
            rw (AllSound, send, trace_input, record_trace, kept)
              (receive-AllSound next answer traced_event w' n s (
                retraced (log_of env w) active (suc active.trace_ordinal)
                  active.last_runtime_sequence p))
      ]

  pump-KeepsSound : (answers : List (Option Event)) → KeepsSound env (pump (logged F env) answers)
  unfolding pump
  pump-KeepsSound [] = record { sound = λ input active w s p. tt }
  pump-KeepsSound (answer ∷ answers) = record {
    sound = λ input active w s p.
        send-AllSound (pump (logged F env) answers) answer input active w (pump-KeepsSound answers)
          s p;
  }

  pub start-AllSound :
      (answers : List (Option Event)) (account_id c : ℕ) (selector : TriggerSelector)
      (facts : WorldFacts F) (w : Logged env)
      → IsSound (log_of env w) w.active
      → AllSound env (start (logged F env) answers account_id c selector facts w)
  unfolding start
  start-AllSound answers account_id c selector facts w s =
      start_candidate-AllSound env (pump (logged F env) answers) account_id c selector facts [] w
        (pump-KeepsSound answers) s

  advance_event-AllSound :
      (answers : List (Option Event)) (input : Input) (active : ActiveEvent F) (w : Logged env)
      → IsSound (log_of env w) w.active
      → Played (log_of env w) active
      → AllSound env (advance_event (logged F env) answers input active w)
  unfolding advance_event
  advance_event-AllSound answers input active w s p =
      let done =
        (logged F env).repository.renew_event (run_of active) (token_of active) w.repository in
      let s' = but_one (run_of active) (log_of env w) w.active s in
      elim (Result-cases done.0) [
        | inr (e, ended) ↦
            rw (AllSound, advance_event, ended)
              (dropped-IsSound (run_of active) (log_of env w) w.active s')
        | inl (_, renewed) ↦
            rw (AllSound, advance_event, renewed)
              ((pump-KeepsSound answers).sound (some input) active (with_repository w done.1) s' p)
      ]

  pub advance-AllSound :
      (answers : List (Option Event)) (account_id c run_id : ℕ) (input : Input) (w : Logged env)
      → IsSound (log_of env w) w.active
      → AllSound env (advance (logged F env) answers account_id c run_id input w)
  unfolding advance
  advance-AllSound answers account_id c run_id input w s = elim (Option-cases (w.active run_id)) [
    | inl idle ↦ rw (AllSound, advance, idle) s
    | inr (active, found) ↦
        let owner =
          active.published.character_id == c && active.published.account_id == account_id in
        elim (Bool-cases owner) [
          | inr other ↦ rw (AllSound, advance, found, other) s
          | inl own ↦
              rw (AllSound, advance, found, own)
                (advance_event-AllSound answers input active w s (s.played run_id active found))
        ]
  ]
