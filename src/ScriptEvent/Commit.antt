-- ===== src/ScriptEvent/Commit.antt =====
-- The end of a run, and the state that its event has staged.
use mathlib.Core.List.{append-nil, append_assoc}
use new_yokosuka_server.Base.{
  ℕ, ◌≡◌, refl, sym, ap, subst, ◌∙◌, Bool, String, Option, some, List, [], ◌∷◌, ◌++◌, map, arith,
  ◌==◌, Bool-cases, Option-cases, inl, inr, true, false,
}
use new_yokosuka_server.Base.Int.{ℤ, pos}
use new_yokosuka_server.Base.Lists.{length}
use new_yokosuka_server.Floats.{Floats}
use new_yokosuka_server.ScriptRuntime.{Event}
use new_yokosuka_server.Store.Tables.{Db}
use new_yokosuka_server.Store.Transaction.{Tx, Result, ok, err, transact_ok}
use new_yokosuka_server.Store.Runs.{Run, completed}
use new_yokosuka_server.Store.Ledger.{yen_at, quantity_at}
use new_yokosuka_server.Store.Effects.{
  ScriptTables, ScriptEffect, Durable, durable_of, set_flag, clear_flag, set_progress,
  increment_progress, grant_yen, spend_yen, give_item, take_item, apply_durable,
  apply_script_effect, counted,
}
use new_yokosuka_server.Store.Effects.Finish.{
  CharacterScriptState, leased_run, insert_effect, apply_effects, complete_script_event,
}
use new_yokosuka_server.Store.Effects.Steps.{after_effect, after_finish}
use new_yokosuka_server.ScriptEvent.State.{EventState, stage, stage_saved, stage_durable, effect_of}
use new_yokosuka_server.ScriptEvent.Agreement.{Agrees}
use new_yokosuka_server.ScriptEvent.Staging.{
  AddsLikeNumbers, stage_flag-Agrees, stage_progress-Agrees,
}
use new_yokosuka_server.ScriptEvent.Goods.{stage_yen-Agrees, stage_item-Agrees}

module _ (F : Floats) where
  -- The commands of a script, staged one after the other.
  unfoldable pub stage_all : List Event → EventState F → Result (EventState F)
  stage_all [] state = ok state
  stage_all (event ∷ events) state = elim (stage F event state) [
    | err e ↦ err e
    | ok next ↦ stage_all events next
  ]

  stage_all_step :
      (event : Event) (events : List Event) (state final : EventState F)
      → stage_all (event ∷ events) state ≡ ok final
      → (next : EventState F) × (stage_saved F event state.saved ≡ ok (tt, next.saved))
        × (next.effects ≡ state.effects ++ (effect_of event ∷ []))
        × (stage_all events next ≡ ok final)
  unfolding stage_all stage
  stage_all_step event events state final h = go (stage_saved F event state.saved) refl
    where
      go :
          (r : Result (Unit {0} × CharacterScriptState F))
          → stage_saved F event state.saved ≡ r
          → (next : EventState F) × (stage_saved F event state.saved ≡ ok (tt, next.saved))
            × (next.effects ≡ state.effects ++ (effect_of event ∷ []))
            × (stage_all events next ≡ ok final)
      go (err x) e = absurd (ground (arith, e, h))
      go (ok (_, saved)) e = (
        record state { saved = saved; effects = state.effects ++ (effect_of event ∷ []) },
        e,
        refl,
        ground (arith, e, h),
      )

  counted_ok :
      (effect : ScriptEffect) (n : ℕ) (m : Tx (ScriptTables F) (Unit {0})) (s t : ScriptTables F)
      {b : Unit {0}}
      → counted F effect n m s ≡ ok (b, t)
      → m s ≡ ok (b, t)
  unfolding counted
  counted_ok effect n m s t h = elim (Bool-cases (length effect.arguments == n)) [
    | inl right ↦ ground (arith, right, h)
    | inr wrong ↦ absurd (ground (arith, wrong, h))
  ]

  module _ (laws : AddsLikeNumbers F) (c run_id : ℕ) where
    stage_durable-Agrees :
        (effect : ScriptEffect) (command : Durable) {st st' : CharacterScriptState F}
        {s s' : ScriptTables F} {a b : Unit {0}}
        → Agrees F c st s
        → stage_durable F effect.arguments command st ≡ ok (a, st')
        → apply_durable F c run_id effect command s ≡ ok (b, s')
        → Agrees F c st' s'
    unfolding stage_durable apply_durable
    stage_durable-Agrees effect set_flag {s = s} {s' = s'} agrees h k =
        stage_flag-Agrees F c effect agrees true h (counted_ok effect 1 _ s s' k)
    stage_durable-Agrees effect clear_flag {s = s} {s' = s'} agrees h k =
        stage_flag-Agrees F c effect agrees false h (counted_ok effect 1 _ s s' k)
    stage_durable-Agrees effect set_progress {s = s} {s' = s'} agrees h k =
        stage_progress-Agrees F c effect agrees laws false h (counted_ok effect 2 _ s s' k)
    stage_durable-Agrees effect increment_progress {s = s} {s' = s'} agrees h k =
        stage_progress-Agrees F c effect agrees laws true h (counted_ok effect 2 _ s s' k)
    stage_durable-Agrees effect grant_yen {s = s} {s' = s'} agrees h k =
        stage_yen-Agrees F c run_id effect agrees false h (counted_ok effect 2 _ s s' k)
    stage_durable-Agrees effect spend_yen {s = s} {s' = s'} agrees h k =
        stage_yen-Agrees F c run_id effect agrees true h (counted_ok effect 2 _ s s' k)
    stage_durable-Agrees effect give_item {s = s} {s' = s'} agrees h k =
        stage_item-Agrees F c run_id effect agrees true h (counted_ok effect 2 _ s s' k)
    stage_durable-Agrees effect take_item {s = s} {s' = s'} agrees h k =
        stage_item-Agrees F c run_id effect agrees false h (counted_ok effect 2 _ s s' k)

    pub stage_saved-Agrees :
        (event : Event) {st st' : CharacterScriptState F} {s s' : ScriptTables F} {a b : Unit {0}}
        → Agrees F c st s
        → stage_saved F event st ≡ ok (a, st')
        → apply_script_effect F c run_id (effect_of event) s ≡ ok (b, s')
        → Agrees F c st' s'
    unfolding stage_saved apply_script_effect
    stage_saved-Agrees event agrees h k = elim (Option-cases (durable_of event.name)) [
      | inl unknown ↦ absurd (ground (arith, unknown, h))
      | inr (command, e) ↦
          stage_durable-Agrees (effect_of event) command agrees (rw (stage_saved, e) at h)
            (rw (apply_script_effect, e) at k)
    ]

    -- Tables that differ in other parts only.
    Agrees-same :
        {st : CharacterScriptState F} {s t : ScriptTables F}
        → Agrees F c st s
        → t.db ≡ s.db
        → t.flags ≡ s.flags
        → t.progress ≡ s.progress
        → Agrees F c st t
    Agrees-same {st} {s} {t} a d f p = record {
      yen = ap (λ (x : Db). yen_at (x.characters c)) d ∙ a.yen;
      flags = λ k. a.flags k ∙ ap (λ (m : ℕ → String → Option Bool). m c k) (sym f);
      progress = λ k. a.progress k ∙ ap (λ (m : ℕ → String → Option F.Float). m c k) (sym p);
      inventory = λ k. a.inventory k ∙ ap (λ (x : Db). pos (quantity_at (x.inventory c k))) (sym d);
    }

    insert_effect-Agrees :
        (effect : ScriptEffect) {st : CharacterScriptState F} {s t : ScriptTables F} {b : Unit {0}}
        → Agrees F c st s
        → insert_effect F run_id effect s ≡ ok (b, t)
        → Agrees F c st t
    unfolding insert_effect
    insert_effect-Agrees effect a h =
        Agrees-same a (ground (arith, h)) (ground (arith, h)) (ground (arith, h))

    apply_effects-Agrees :
        (events : List Event) (last : ℤ) (start state : EventState F) {s t : ScriptTables F}
        {b : Unit {0}}
        → Agrees F c start.saved s
        → stage_all events start ≡ ok state
        → apply_effects F c run_id last (map effect_of events) s ≡ ok (b, t)
        → Agrees F c state.saved t
    unfolding stage_all apply_effects
    apply_effects-Agrees [] last start state {s} {t} a h k =
        let same : start ≡ state = ground (arith, h) in
        subst (λ (x : EventState F). Agrees F c x.saved t) same
          (subst (Agrees F c start.saved) (ground (arith, k)) a)
    apply_effects-Agrees (event ∷ events) last start state a h k =
        let (next, staged, _, later) = stage_all_step event events start state h in
        after_effect F c run_id last (effect_of event) (map effect_of events) _ _ k
          λ _ u v inserted applied rest.
            apply_effects-Agrees events event.sequence next state
              (stage_saved-Agrees event (insert_effect-Agrees (effect_of event) a inserted) staged
                applied)
              later rest

  stage_all-effects :
      (events : List Event) (state final : EventState F)
      → stage_all events state ≡ ok final
      → final.effects ≡ state.effects ++ map effect_of events
  unfolding stage_all
  stage_all-effects [] state final h =
      let same : final ≡ state = ground (arith, h) in
      ap (λ (x : EventState F). x.effects) same ∙ sym (append-nil state.effects)
  stage_all-effects (event ∷ events) state final h =
      let (next, _, added, later) = stage_all_step event events state final h in
      stage_all-effects events next final later
      ∙ ap (λ effects. effects ++ map effect_of events) added
      ∙ append_assoc state.effects (effect_of event ∷ []) (map effect_of events)

  -- The commands that an event staged one after the other, in a state that agrees with the tables,
  -- if they are committed as its effects, leave tables that agree with the state staged last.
  pub complete-Agrees :
      (laws : AddsLikeNumbers F) (id : ℕ) (token : String) (expected now : ℕ) (run : Run)
      (events : List Event) (start state : EventState F) (s : ScriptTables F) {revision : ℕ}
      → leased_run id token expected now s.events.runs ≡ some run
      → start.effects ≡ []
      → Agrees F run.character_id start.saved s
      → stage_all events start ≡ ok state
      → (complete_script_event F id token expected state.effects now s).0 ≡ ok revision
      → Agrees F run.character_id state.saved
          (complete_script_event F id token expected state.effects now s).1
  unfolding complete_script_event
  complete-Agrees laws id token expected now run events start state s found fresh agrees staged
        done =
      after_finish F id token expected now state.effects completed s _ (transact_ok _ s done)
        λ found_run locked _ u _ applied _ _ same.
          let t = (complete_script_event F id token expected state.effects now s).1 in
          let same_run : found_run ≡ run = some_inj (sym locked ∙ found) in
          let effects =
            stage_all-effects events start state staged
            ∙ ap (λ effects. effects ++ map effect_of events) fresh in
          Agrees-same laws run.character_id id
            (apply_effects-Agrees laws run.character_id id events (pos 0) start state agrees staged
              (subst
                (λ (r : Run).
                  apply_effects F r.character_id id (pos 0) (map effect_of events) s ≡ ok (tt, u))
                same_run
                (subst (λ es. apply_effects F found_run.character_id id (pos 0) es s ≡ ok (tt, u))
                  effects applied)))
            (ap (λ (x : ScriptTables F). x.db) same) (ap (λ (x : ScriptTables F). x.flags) same)
            (ap (λ (x : ScriptTables F). x.progress) same)
    where
      some_inj : {p q : Run} → some p ≡ some q → p ≡ q
      some_inj h = cc
