-- ===== src/ScriptEvent/Engine/Permitted.antt =====
-- Each part of the engine's loop that acts on an event keeps the log justified.
use new_yokosuka_server.Base.{
  ℕ, ◌≡◌, refl, sym, ap, ◌∙◌, subst, true, false, String, Option, none, some, List, ◌∷◌, is_some,
  arith, Bool-cases, Option-cases, inl, inr, if_true, if_false,
}
use new_yokosuka_server.Floats.{Floats}
use new_yokosuka_server.ScriptRuntime.{Event, Input}
use new_yokosuka_server.Store.Transaction.{Result, Result-cases, Error, invalid}
use new_yokosuka_server.ScriptEvent.State.{WorldFacts, stage}
use new_yokosuka_server.ScriptEvent.Query.{resolve_query}
use new_yokosuka_server.ScriptContent.Triggers.{TriggerSelector}
use new_yokosuka_server.ScriptEvent.Engine.{
  ActiveEvent, World, Environment, present_options, new_active, PublishedScriptEvent,
}
use new_yokosuka_server.ScriptEvent.Engine.Calls.{
  Call, launched, logged, note_start, is_durable, is_visible,
}
use new_yokosuka_server.ScriptEvent.Engine.Commits.{
  Played, Hears, settle, stages_one, stages_nothing, new-Played,
}
use new_yokosuka_server.ScriptEvent.Engine.Others.{
  SoundBut, IsSound, launched-SoundBut, dropped-IsSound, kept-IsSound, opened-SoundBut,
  committed-SoundBut,
}
use new_yokosuka_server.ScriptEvent.Engine.Pump.{
  Answer, Loop, run_of, token_of, keep, with_repository, open_session, fail, answer_query,
  stage_command, start_candidate, show_line, show_options, cancel, finish,
}

module _ {F : Floats} {R : Type 0} (env : Environment F R) where
  -- The worlds of an engine that works on a logged repository.
  abbrev pub Logged : Type 0
  Logged = World F (R × List (Call F))

  abbrev pub log_of : Logged → List (Call F)
  log_of w = w.repository.1

  abbrev pub AllSound : Option (Answer F (R × List (Call F))) → Type 0
  AllSound none = Unit
  AllSound (some answer) = IsSound (log_of answer.1) answer.1.active

  pub record KeepsSound (next : Loop F (R × List (Call F))) : Type 0 where
    pub sound :
        (input : Option Input) (active : ActiveEvent F) (w : Logged)
        → SoundBut (run_of active) (log_of w) w.active
        → Played (log_of w) active
        → AllSound (next input active w)

  pub fail-IsSound :
      (active : ActiveEvent F) (code : String) (cause : Error) (w : Logged)
      → SoundBut (run_of active) (log_of w) w.active
      → AllSound (some (fail (logged F env) active code cause w))
  unfolding fail
  fail-IsSound active code cause w s = dropped-IsSound (run_of active) (log_of w) w.active s

  pub answer_query-AllSound :
      (next : Loop F (R × List (Call F))) (event : Event) (active : ActiveEvent F) (w : Logged)
      → KeepsSound next
      → SoundBut (run_of active) (log_of w) w.active
      → Played (log_of w) active
      → AllSound (answer_query (logged F env) next event active w)
  unfolding answer_query
  answer_query-AllSound next event active w n s p =
      elim (Result-cases (resolve_query F env.random active.state event)) [
        | inr (e, refused) ↦
            rw (AllSound, answer_query, refused) (fail-IsSound active "query" e w s)
        | inl (value, resolved) ↦ elim (Option-cases event.query_id) [
          | inl missing ↦ rw (AllSound, answer_query, resolved, missing) tt
          | inr (id, found) ↦ rw (AllSound, answer_query, resolved, found) (n.sound _ active w s p)
        ]
      ]

  pub stage_command-AllSound :
      (next : Loop F (R × List (Call F))) (event : Event) (active : ActiveEvent F) (w : Logged)
      → KeepsSound next
      → SoundBut (run_of active) (log_of w) w.active
      → Hears event (log_of w) active
      → is_durable event ≡ true
      → is_visible event ≡ false
      → AllSound (stage_command (logged F env) next event active w)
  unfolding stage_command
  stage_command-AllSound next event active w n s h kept unseen =
      elim (Result-cases (stage F event active.state)) [
        | inr (e, refused) ↦
            rw (AllSound, stage_command, refused) (fail-IsSound active "effect" e w s)
        | inl (state, staged) ↦
            rw (AllSound, stage_command, staged)
              (n.sound _ (record active { state = state }) w s
                (settle event (log_of w) active state active.completion_requested
                  active.visible_yielded h (stages_one event active.state state kept staged)
                  (λ e. ground (arith, e)) (λ e. ground (arith, e, unseen))))
      ]

  -- A yield that the player sees.
  pub shown-IsSound :
      (event : Event) (active : ActiveEvent F) (w : Logged)
      → SoundBut (run_of active) (log_of w) w.active
      → Hears event (log_of w) active
      → is_durable event ≡ false
      → IsSound (log_of w) (keep (record active { visible_yielded = true }) w).active
  shown-IsSound event active w s h quiet =
      kept-IsSound (record active { visible_yielded = true }) (log_of w) w.active s
        (settle event (log_of w) active active.state active.completion_requested true h
          (stages_nothing event active.state quiet) (λ e. ground (arith, e)) (λ e. refl))

  pub show_line-AllSound :
      (event : Event) (active : ActiveEvent F) (w : Logged)
      → SoundBut (run_of active) (log_of w) w.active
      → Hears event (log_of w) active
      → is_durable event ≡ false
      → AllSound (show_line (logged F env) event active w)
  unfolding show_line
  show_line-AllSound event active w s h quiet =
      elim (Bool-cases (is_some (active.lines event.line_id))) [
        | inr missing ↦ rw (AllSound, show_line, missing) (fail-IsSound active "line" invalid w s)
        | inl found ↦ rw (AllSound, show_line, found) (shown-IsSound event active w s h quiet)
      ]

  pub show_options-AllSound :
      (event : Event) (active : ActiveEvent F) (w : Logged)
      → SoundBut (run_of active) (log_of w) w.active
      → Hears event (log_of w) active
      → is_durable event ≡ false
      → AllSound (show_options (logged F env) event active w)
  unfolding show_options
  show_options-AllSound event active w s h quiet =
      elim (Option-cases (present_options active.lines event.options)) [
        | inl refused ↦
            rw (AllSound, show_options, refused) (fail-IsSound active "options" invalid w s)
        | inr (presented, found) ↦
            rw (AllSound, show_options, found) (shown-IsSound event active w s h quiet)
      ]

  pub cancel-AllSound :
      (event : Event) (active : ActiveEvent F) (w : Logged)
      → SoundBut (run_of active) (log_of w) w.active
      → AllSound (cancel (logged F env) event active w)
  unfolding cancel
  cancel-AllSound event active w s =
      let done =
        (logged F env).repository.cancel_event (run_of active) (token_of active) w.repository in
      elim (Result-cases done.0) [
        | inr (e, failed) ↦
            rw (AllSound, cancel, failed)
              (fail-IsSound active "cancel" e (with_repository w done.1) s)
        | inl (_, cancelled) ↦
            rw (AllSound, cancel, cancelled) (dropped-IsSound (run_of active) (log_of w) w.active s)
      ]

  pub finish-AllSound :
      (event : Event) (active : ActiveEvent F) (w : Logged)
      → SoundBut (run_of active) (log_of w) w.active
      → Played (log_of w) active
      → AllSound (finish (logged F env) event active w)
  unfolding finish fail
  finish-AllSound event active w s p =
      let done =
        (logged F env).repository.complete_event (run_of active) (token_of active)
          active.published.state.revision active.state.effects w.repository in
      elim (Bool-cases active.completion_requested) [
        | inr unasked ↦
            rw (AllSound, finish, unasked) (fail-IsSound active "completion_required" invalid w s)
        | inl asked ↦
            let w' = with_repository w done.1 in
            let s' = committed-SoundBut active (log_of w) w.active s p asked in
            elim (Result-cases done.0) [
              | inr (e, failed) ↦
                  rw (AllSound, finish, asked, failed) (fail-IsSound active "commit" e w' s')
              | inl (revision, finished) ↦
                  rw (AllSound, finish, asked, finished)
                    (dropped-IsSound (run_of active) (log_of w') w.active s')
            ]
      ]

  pub start_candidate-AllSound :
      (next : Loop F (R × List (Call F))) (account_id c : ℕ) (selector : TriggerSelector)
      (facts : WorldFacts F) (excluded : List ℕ) (w : Logged)
      → KeepsSound next
      → IsSound (log_of w) w.active
      → AllSound (start_candidate (logged F env) next account_id c selector facts excluded w)
  unfolding start_candidate
  start_candidate-AllSound next account_id c selector facts excluded w n s =
      let done =
        (logged F env).repository.start_event account_id c selector excluded w.repository in
      let w' = with_repository w done.1 in
      let log = log_of w in
      let noted = λ (r : Result (PublishedScriptEvent F)). note_start F env.launches r log in
      elim (Result-cases done.0) [
        | inr (e, refused) ↦
            rw (AllSound, start_candidate, refused)
              (subst (λ l. IsSound l w.active) (sym (ap noted refused)) s)
        | inl (published, begun) ↦ elim (Bool-cases (env.launches published)) [
          | inr dead ↦
              rw (AllSound, start_candidate, begun, dead)
                (subst (λ l. IsSound l w.active)
                  (sym (
                    ap noted begun
                    ∙ if_false (launched published ∷ log) log (env.launches published) dead))
                  s)
          | inl alive ↦
              let active = new_active F published facts excluded in
              let logs =
                ap noted begun
                ∙ if_true (launched published ∷ log) log (env.launches published) alive in
              rw (AllSound, start_candidate, begun, alive)
                (n.sound none active (open_session active w')
                  (opened-SoundBut active (log_of w') w.active (
                    subst (λ l. SoundBut (run_of active) l w.active) (sym logs)
                      (launched-SoundBut published log w.active s)))
                  (subst (λ l. Played l active) (sym logs)
                    (new-Played published facts excluded log)))
        ]
      ]
