-- ===== src/Store/Effects/Steps.antt =====
-- The steps of the end of a run, taken apart.
use new_yokosuka_server.Base.{
  ℕ, ◌≡◌, sym, ap, subst, ◌∙◌, false, String, some, List, [], ◌∷◌, arith, leb, ◌==◌, ==_iff,
  Bool-cases, Option-cases, inl, inr,
}
use new_yokosuka_server.Base.Int.{ℤ, pos, leb_ℤ}
use new_yokosuka_server.Floats.{Floats}
use new_yokosuka_server.Store.Transaction.{ok, after_bind}
use new_yokosuka_server.Store.Economy.{max_int64}
use new_yokosuka_server.Store.Runs.{Run, Status}
use new_yokosuka_server.Store.Effects.{ScriptTables, ScriptEffect, apply_script_effect}
use new_yokosuka_server.Store.Effects.Finish.{
  leased_run, lock_run, insert_effect, apply_effects, advance_revision, end_run, finish_tx,
}

module _ (F : Floats) where
  -- The first effect that is applied, and the rest.
  pub after_effect {ℓ} :
      (c run_id : ℕ) (last : ℤ) (effect : ScriptEffect) (effects : List ScriptEffect)
      (s t : ScriptTables F) {b : Unit {0}} {P : Type ℓ}
      → apply_effects F c run_id last (effect ∷ effects) s ≡ ok (b, t)
      → (leb_ℤ effect.sequence last ≡ false
          → (u v : ScriptTables F) → insert_effect F run_id effect s ≡ ok (tt, u)
          → apply_script_effect F c run_id effect u ≡ ok (tt, v)
          → apply_effects F c run_id effect.sequence effects v ≡ ok (b, t)
          → P)
      → P
  unfolding apply_effects
  after_effect c run_id last effect effects s t h k =
      elim (Bool-cases (leb_ℤ effect.sequence last)) [
        | inl late ↦ absurd (ground (arith, late, h))
        | inr next ↦
            after_bind _ _ _ (rw next at h)
              λ _ u e h. after_bind _ _ _ h λ _ v f h. k next u v e f h
      ]

  advance_revision_advances :
      (c revision : ℕ) (effects : List ScriptEffect) (s t : ScriptTables F) {new : ℕ}
      → advance_revision F c revision effects s ≡ ok (new, t)
      → t ≡ record s { events = t.events }
  unfolding advance_revision
  advance_revision_advances c revision [] s t h = ground (arith, h)
  advance_revision_advances c revision (effect ∷ effects) s t h =
      elim (Bool-cases (leb max_int64 revision)) [
        | inl full ↦ absurd (ground (arith, full, h))
        | inr room ↦ ground (arith, room, h)
      ]

  lock_run_locks :
      (id : ℕ) (token : String) (expected now : ℕ) (s t : ScriptTables F) {locked : ℕ × ℕ}
      → lock_run F id token expected now s ≡ ok (locked, t)
      → (run : Run) × (leased_run id token expected now s.events.runs ≡ some run)
        × (s.events.revisions run.character_id ≡ some expected)
        × (locked ≡ (run.character_id, expected))
        × (s ≡ t)
  unfolding lock_run
  lock_run_locks id token expected now s t h =
      elim (Option-cases (leased_run id token expected now s.events.runs)) [
        | inl none_found ↦ absurd (ground (arith, none_found, h))
        | inr (run, found) ↦ elim (Option-cases (s.events.revisions run.character_id)) [
          | inl missing ↦ absurd (ground (arith, found, missing, h))
          | inr (revision, current) ↦ elim (Bool-cases (revision == expected)) [
            | inr other ↦ absurd (ground (arith, found, current, other, h))
            | inl same ↦
                let e = (==_iff revision expected).0 same in
                (
                  run,
                  found,
                  current ∙ ap some e,
                  ground (arith, found, current, same, e, h),
                  ground (arith, found, current, same, h),
                )
          ]
        ]
      ]

  end_run_ends :
      (id : ℕ) (status : Status) (s t : ScriptTables F) {b : Unit {0}}
      → end_run F id status s ≡ ok (b, t)
      → t ≡ record s { events = t.events }
  unfolding end_run
  end_run_ends id status s t h = ground (arith, h)

  -- The run that ends, the revision it began with, and the tables between the steps of its end.
  pub after_finish {ℓ} :
      (id : ℕ) (token : String) (expected now : ℕ) (effects : List ScriptEffect) (status : Status)
      (s t : ScriptTables F) {new : ℕ} {P : Type ℓ}
      → finish_tx F id token expected effects status now s ≡ ok (new, t)
      → ((run : Run)
          → leased_run id token expected now s.events.runs ≡ some run
          → s.events.revisions run.character_id ≡ some expected
          → (u v : ScriptTables F)
          → apply_effects F run.character_id id (pos 0) effects s ≡ ok (tt, u)
          → advance_revision F run.character_id expected effects u ≡ ok (new, v)
          → end_run F id status v ≡ ok (tt, t)
          → t ≡ record u { events = t.events }
          → P)
      → P
  unfolding finish_tx
  after_finish id token expected now effects status s t {new} h k =
      after_bind _ _ _ h λ locked s' e h. after_bind _ _ _ h λ _ u f h.
        after_bind _ _ _ h λ revision v g h. after_bind _ _ _ h λ _ w i h.
          let (run, found, current, same, kept) = lock_run_locks id token expected now s s' e in
          let same_new : revision ≡ new = ground (arith, h) in
          let same_t : w ≡ t = ground (arith, h) in
          let applied =
            subst (λ (l : ℕ × ℕ). apply_effects F l.0 id (pos 0) effects s ≡ ok (tt, u)) same
              (subst
                (λ (x : ScriptTables F). apply_effects F locked.0 id (pos 0) effects x ≡ ok (tt, u))
                (sym kept) f) in
          let advanced =
            subst (λ (l : ℕ × ℕ). advance_revision F l.0 l.1 effects u ≡ ok (new, v)) same
              (subst (λ n. advance_revision F locked.0 locked.1 effects u ≡ ok (n, v)) same_new
                g) in
          let ended = subst (λ x. end_run F id status v ≡ ok (tt, x)) same_t i in
          k run found current u v applied advanced ended (
            end_run_ends id status v t ended
            ∙ ap (λ (x : ScriptTables F). record x { events = t.events })
                (advance_revision_advances run.character_id expected effects u v advanced))
