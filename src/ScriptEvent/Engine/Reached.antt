-- ===== src/ScriptEvent/Engine/Reached.antt =====
-- The states of the engine that its calls reach, one after the other.
use new_yokosuka_server.Base.{
  ℕ, ◌≡◌, refl, sym, ap, subst, ◌∙◌, false, ◌&&◌, Option, none, some, List, [], ◌==◌, is_some,
  Bool-cases, Option-cases, inl, inr,
}
use new_yokosuka_server.Floats.{Floats}
use new_yokosuka_server.ScriptRuntime.{Event, Input}
use new_yokosuka_server.Store.Transaction.{Result-cases}
use new_yokosuka_server.ScriptEvent.State.{WorldFacts}
use new_yokosuka_server.ScriptContent.Triggers.{TriggerSelector}
use new_yokosuka_server.ScriptEvent.Engine.{ActiveEvent, World, Environment, new_active}
use new_yokosuka_server.ScriptEvent.Engine.Pump.{
  Answer, run_of, with_repository, open_session, not_started, start_candidate, start, pump, advance,
  advance_event,
}
use new_yokosuka_server.ScriptEvent.Engine.Sessions.{IsTracked, tracks, open_session-IsTracked}
use new_yokosuka_server.ScriptEvent.Engine.Settled.{AllSettle, opened_true}
use new_yokosuka_server.ScriptEvent.Engine.Tracked.{pump-Keeps, advance_event-Settles}

module _ {F : Floats} {R : Type 0} where
  -- The engine as `newEngine` returns it.
  abbrev pub new_engine : R → World F R
  new_engine r = record { repository = r; active = λ id. none; sessions = λ id. false }

  -- From a new engine, by calls that answer, and by what others do to the repository.
  pub data Reaches (env : Environment F R) : World F R → Type 0 where
    begun : (r : R) → Reaches env (new_engine r)
    changed : (w : World F R) (r : R) → Reaches env w → Reaches env (with_repository w r)
    started :
        (answers : List (Option Event)) (account_id c : ℕ) (selector : TriggerSelector)
        (facts : WorldFacts F) (w : World F R) (answer : Answer F R)
        → Reaches env w
        → start env answers account_id c selector facts w ≡ some answer
        → Reaches env answer.1
    advanced :
        (answers : List (Option Event)) (account_id c run_id : ℕ) (input : Input) (w : World F R)
        (answer : Answer F R)
        → Reaches env w
        → advance env answers account_id c run_id input w ≡ some answer
        → Reaches env answer.1

  new_engine-IsTracked : (r : R) → IsTracked F R (new_engine r)
  new_engine-IsTracked r = record { same = λ id. refl; keyed = λ id a h. absurd (cc) }

  abbrev AllTracked : Option (Answer F R) → Type 0
  AllTracked none = Unit
  AllTracked (some answer) = IsTracked F R answer.1

  tracked_of :
      (run : ℕ) (before : ℕ → Option (ActiveEvent F)) (answer : Option (Answer F R))
      → AllSettle run before answer
      → AllTracked answer
  tracked_of run before none h = tt
  tracked_of run before (some answer) h = h.tracked

  module _ (env : Environment F R) where
    start_candidate-tracked :
        (answers : List (Option Event)) (account_id c : ℕ) (selector : TriggerSelector)
        (facts : WorldFacts F) (w : World F R)
        → IsTracked F R w
        → AllTracked (start env answers account_id c selector facts w)
    unfolding start start_candidate
    start_candidate-tracked answers account_id c selector facts w t =
        let done = env.repository.start_event account_id c selector [] w.repository in
        elim (Result-cases done.0) [
          | inr (e, refused) ↦ rw (AllTracked, start, start_candidate, refused) (tracks t done.1)
          | inl (published, begun_run) ↦ elim (Bool-cases (env.launches published)) [
            | inr dead ↦
                rw (AllTracked, start, start_candidate, begun_run, dead)
                  (tracks t (not_started env published done.1))
            | inl alive ↦
                let active = new_active F published facts [] in
                let w' = open_session active (with_repository w done.1) in
                rw (AllTracked, start, start_candidate, begun_run, alive)
                  (tracked_of (run_of active) w'.active (pump env answers none active w') (
                    (pump-Keeps env answers).settles none active w'
                      (open_session-IsTracked active (tracks t done.1))
                      (opened_true active (with_repository w done.1))))
          ]
        ]

    advance-tracked :
        (answers : List (Option Event)) (account_id c run_id : ℕ) (input : Input) (w : World F R)
        → IsTracked F R w
        → AllTracked (advance env answers account_id c run_id input w)
    unfolding advance
    advance-tracked answers account_id c run_id input w t = elim (Option-cases (w.active run_id)) [
      | inl idle ↦ rw (AllTracked, advance, idle) t
      | inr (active, found) ↦
          let owner =
            active.published.character_id == c && active.published.account_id == account_id in
          elim (Bool-cases owner) [
            | inr other ↦ rw (AllTracked, advance, found, other) t
            | inl own ↦
                let key = t.keyed run_id active found in
                rw (AllTracked, advance, found, own)
                  (tracked_of (run_of active) w.active (advance_event env answers input active w) (
                    advance_event-Settles env answers input active w t
                      (ap w.sessions key ∙ sym (t.same run_id) ∙ ap is_some found)))
          ]
    ]

    -- In every state that the engine reaches from a new one by calls that answer, while others change
    -- the repository, a session is open just when its event is active, and each active event stands
    -- under the identifier of its run.
    pub reaches-IsTracked : (w : World F R) → Reaches env w → IsTracked F R w
    reaches-IsTracked w (begun r) = new_engine-IsTracked r
    reaches-IsTracked w (changed v r before) = tracks (reaches-IsTracked v before) r
    reaches-IsTracked w (started answers account_id c selector facts v answer before h) =
        subst AllTracked h (
          start_candidate-tracked answers account_id c selector facts v
            (reaches-IsTracked v before))
    reaches-IsTracked w (advanced answers account_id c run_id input v answer before h) =
        subst AllTracked h
          (advance-tracked answers account_id c run_id input v (reaches-IsTracked v before))
