-- ===== src/ScriptEvent/Engine/Guarded.antt =====
-- The commands of a script, and each kind of event, keep the log justified.
use new_yokosuka_server.Base.{
  ℕ, ◌≡◌, refl, true, Option, none, some, List, [], ◌∷◌, ◌++◌, arith, Bool-cases, inl, inr,
}
use new_yokosuka_server.Floats.{Floats}
use new_yokosuka_server.ScriptRuntime.{Event}
use new_yokosuka_server.Store.Transaction.{Result-cases, ok, err, invalid}
use new_yokosuka_server.ScriptEvent.Engine.{
  EventKind, at_node, at_query, at_command, at_line, at_options, at_cancel, at_end, unexpected,
  kind_of, Disposition, durable, completion, pass_trigger, external, unknown, ActiveEvent,
  Environment, disposition_of,
}
use new_yokosuka_server.ScriptEvent.Engine.Calls.{Call, logged}
use new_yokosuka_server.ScriptEvent.Engine.Kinds.{
  not_durable, not_visible, command_not_visible, command_not_durable, command_durable, command_asks,
  is_quiet, quiet_command, quiet_shown,
}
use new_yokosuka_server.ScriptEvent.Engine.Commits.{
  Played, Hears, settle, stages_nothing, unchanged,
}
use new_yokosuka_server.ScriptEvent.Engine.Others.{SoundBut, dropped-IsSound, declined-SoundBut}
use new_yokosuka_server.ScriptEvent.Engine.Permitted.{
  Logged, log_of, AllSound, KeepsSound, fail-IsSound, answer_query-AllSound, stage_command-AllSound,
  shown-IsSound, show_line-AllSound, show_options-AllSound, cancel-AllSound, finish-AllSound,
  start_candidate-AllSound,
}
use new_yokosuka_server.ScriptEvent.Engine.Pump.{
  Answer, Loop, run_of, token_of, drop_event, with_repository, fail, or_declined, is_missing, pass,
  run_command, dispatch,
}

module _ {F : Floats} {R : Type 0} (env : Environment F R) where
  abbrev Next : Type 0
  Next = Loop F (R × List (Call F))

  or_declined-AllSound :
      (event : Event) (active : ActiveEvent F) (revision : ℕ)
      (answer : Option (Answer F (R × List (Call F))))
      → AllSound env answer
      → AllSound env (or_declined (logged F env) event active revision answer)
  unfolding or_declined
  or_declined-AllSound event active revision none h = tt
  or_declined-AllSound event active revision (some (ok yield, w)) h = h
  or_declined-AllSound event active revision (some (err e, w)) h =
      elim (Bool-cases (is_missing e)) [
        | inl missing ↦ rw (AllSound, or_declined, missing) h
        | inr other ↦ rw (AllSound, or_declined, other) h
      ]

  pass-AllSound :
      (next : Next) (event : Event) (active : ActiveEvent F) (w : Logged env)
      → KeepsSound env next
      → SoundBut (run_of active) (log_of env w) w.active
      → Played (log_of env w) active
      → AllSound env (pass (logged F env) next event active w)
  unfolding pass fail
  pass-AllSound next event active w n s p =
      let done =
        (logged F env).repository.pass_event (run_of active) (token_of active)
          active.published.state.revision active.state.effects w.repository in
      elim (Bool-cases active.visible_yielded) [
        | inl late ↦
            rw (AllSound, pass, late) (fail-IsSound env active "late_trigger_pass" invalid w s)
        | inr early ↦
            let w' = with_repository w done.1 in
            let s' = declined-SoundBut active (log_of env w) w.active s p early in
            elim (Result-cases done.0) [
              | inr (e, failed) ↦
                  rw (AllSound, pass, early, failed) (fail-IsSound env active "pass" e w' s')
              | inl (revision, passed) ↦
                  rw (AllSound, pass, early, passed)
                    (or_declined-AllSound event active revision _ (
                      start_candidate-AllSound env next active.published.account_id
                        active.published.character_id active.published.trigger active.state.facts
                        (active.excluded ++ (active.published.version_id ∷ []))
                        (drop_event active w') n
                        (dropped-IsSound (run_of active) (log_of env w') w.active s')))
            ]
      ]

  run_command-AllSound :
      (disposition : Disposition) (next : Next) (event : Event) (active : ActiveEvent F)
      (w : Logged env)
      → disposition_of event.name ≡ disposition
      → kind_of event.type_name ≡ at_command
      → KeepsSound env next
      → SoundBut (run_of active) (log_of env w) w.active
      → Hears event (log_of env w) active
      → AllSound env (run_command (logged F env) disposition next event active w)
  unfolding run_command
  run_command-AllSound durable next event active w d k n s h =
      stage_command-AllSound env next event active w n s h (command_durable event k d)
        (command_not_visible event (rw k refl) (rw d refl))
  run_command-AllSound completion next event active w d k n s h =
      n.sound _ (record active { completion_requested = true }) w s
        (settle event (log_of env w) active active.state true active.visible_yielded h
          (stages_nothing event active.state (command_not_durable event (rw d refl)))
          (λ e. rw (command_asks event k d) (ground arith))
          (λ e. ground (arith, e, command_not_visible event (rw k refl) (rw d refl))))
  run_command-AllSound pass_trigger next event active w d k n s h =
      pass-AllSound next event active w n s (
        unchanged event (log_of env w) active h (command_not_durable event (rw d refl))
          (command_not_visible event (rw k refl) (rw d refl)))
  run_command-AllSound external next event active w d k n s h =
      shown-IsSound env event active w s h (command_not_durable event (rw d refl))
  run_command-AllSound unknown next event active w d k n s h =
      fail-IsSound env active "command" invalid w s

  -- An event that neither stages anything nor is seen.
  quiet-Played :
      (event : Event) (active : ActiveEvent F) (w : Logged env) (kind : EventKind)
      → kind_of event.type_name ≡ kind
      → is_quiet kind ≡ true
      → Hears event (log_of env w) active
      → Played (log_of env w) active
  quiet-Played event active w kind k q h =
      unchanged event (log_of env w) active h (not_durable event (rw k (quiet_command kind q)))
        (not_visible event (rw k (quiet_command kind q)) (rw k (quiet_shown kind q)))

  pub dispatch-AllSound :
      (kind : EventKind) (next : Next) (event : Event) (active : ActiveEvent F) (w : Logged env)
      → kind_of event.type_name ≡ kind
      → KeepsSound env next
      → SoundBut (run_of active) (log_of env w) w.active
      → Hears event (log_of env w) active
      → AllSound env (dispatch (logged F env) kind next event active w)
  unfolding dispatch
  dispatch-AllSound at_node next event active w k n s h =
      n.sound none active w s (quiet-Played event active w at_node k refl h)
  dispatch-AllSound at_query next event active w k n s h =
      answer_query-AllSound env next event active w n s
        (quiet-Played event active w at_query k refl h)
  dispatch-AllSound at_command next event active w k n s h =
      run_command-AllSound (disposition_of event.name) next event active w refl k n s h
  dispatch-AllSound at_line next event active w k n s h =
      show_line-AllSound env event active w s h (not_durable event (rw k refl))
  dispatch-AllSound at_options next event active w k n s h =
      show_options-AllSound env event active w s h (not_durable event (rw k refl))
  dispatch-AllSound at_cancel next event active w k n s h = cancel-AllSound env event active w s
  dispatch-AllSound at_end next event active w k n s h =
      finish-AllSound env event active w s (quiet-Played event active w at_end k refl h)
  dispatch-AllSound unexpected next event active w k n s h =
      fail-IsSound env active "protocol" invalid w s
