-- ===== src/Store/Effects/Kept.antt =====
-- What an effect on the tables leaves of the runs.
use new_yokosuka_server.Base.{
  ℕ, ◌≡◌, sym, ap, ◌∙◌, Bool, true, false, String, Option, none, some, arith, ◌==◌, if◌then◌else◌,
  Bool-cases, Option-cases, inl, inr,
}
use new_yokosuka_server.Base.Lists.{length}
use new_yokosuka_server.Floats.{Floats}
use new_yokosuka_server.Store.Transaction.{Tx, Result, ok, err, after_bind, ◌>>=◌}
use new_yokosuka_server.Store.Tables.{Db}
use new_yokosuka_server.Store.Economy.{max_int64, max_int32}
use new_yokosuka_server.Store.Effects.{
  ScriptTables, ScriptEffect, Durable, durable_of, set_flag, clear_flag, set_progress,
  increment_progress, grant_yen, spend_yen, give_item, take_item, apply_durable,
  apply_script_effect, counted, apply_flag, write_flag, delete_flag, apply_progress, write_progress,
  add_progress, apply_yen, apply_item, apply_item_effect, on_db, required, positive_argument,
  require,
}

module _ (F : Floats) where
  -- The runs, their effects and their traces are the same.
  pub record SameRuns (s t : ScriptTables F) : Type 0 where
    pub events : t.events ≡ s.events
    pub effects : t.effects ≡ s.effects
    pub trace : t.trace ≡ s.trace

  pub SameRuns-trans : {s t u : ScriptTables F} → SameRuns s t → SameRuns t u → SameRuns s u
  SameRuns-trans a b = record {
    events = b.events ∙ a.events;
    effects = b.effects ∙ a.effects;
    trace = b.trace ∙ a.trace;
  }

  pub SameRuns-refl : {s t : ScriptTables F} → s ≡ t → SameRuns s t
  SameRuns-refl e = record {
    events = ap (λ (x : ScriptTables F). x.events) (sym e);
    effects = ap (λ (x : ScriptTables F). x.effects) (sym e);
    trace = ap (λ (x : ScriptTables F). x.trace) (sym e);
  }

  bind-SameRuns :
      {A B : Type 0} (m : Tx (ScriptTables F) A) (f : A → Tx (ScriptTables F) B)
      (s t : ScriptTables F) {b : B}
      → ((u : ScriptTables F) (a : A) → m s ≡ ok (a, u) → SameRuns s u)
      → ((u : ScriptTables F) (a : A) → f a u ≡ ok (b, t) → SameRuns u t)
      → ◌>>=◌ m f s ≡ ok (b, t)
      → SameRuns s t
  bind-SameRuns m f s t p q h = after_bind m f s h λ a u e k. SameRuns-trans (p u a e) (q u a k)

  on_db-SameRuns :
      {A : Type 0} (m : Tx Db A) (s t : ScriptTables F) {a : A}
      → on_db F m s ≡ ok (a, t)
      → SameRuns s t
  unfolding on_db
  on_db-SameRuns {A = A} m s t {a} h = go (m s.db) h
    where
      go :
          (r : Result (A × Db))
          → (elim r as (λ _. Result (A × ScriptTables F)) [
            | ok (b, d) ↦ ok (b, record s { db = d })
            | err e ↦ err e
          ])
            ≡ ok (a, t)
          → SameRuns s t
      go (ok (b, d)) k = record {
        events = ground (arith, k);
        effects = ground (arith, k);
        trace = ground (arith, k);
      }
      go (err x) k = absurd (cc)

  required-SameRuns :
      {A : Type 0} (o : Option A) (s t : ScriptTables F) {a : A}
      → required o s ≡ ok (a, t)
      → SameRuns s t
  required-SameRuns none s t h = absurd (cc)
  required-SameRuns (some a) s t h = SameRuns-refl (ground (arith, h))

  positive-SameRuns :
      (effect : ScriptEffect) (i limit : ℕ) (s t : ScriptTables F) {n : ℕ}
      → positive_argument F effect.arguments i limit s ≡ ok (n, t)
      → SameRuns s t
  unfolding positive_argument
  positive-SameRuns effect i limit s t h = SameRuns-refl (ground (arith, h))

  write_progress-SameRuns :
      (c : ℕ) (key : String) (value : F.Float) (s t : ScriptTables F) {b : Unit {0}}
      → write_progress F c key value s ≡ ok (b, t)
      → SameRuns s t
  unfolding write_progress
  write_progress-SameRuns c key value s t h = record {
    events = ground (arith, h);
    effects = ground (arith, h);
    trace = ground (arith, h);
  }

  add_progress-SameRuns :
      (c : ℕ) (key : String) (value : F.Float) (s t : ScriptTables F) {b : Unit {0}}
      → add_progress F c key value s ≡ ok (b, t)
      → SameRuns s t
  unfolding add_progress
  add_progress-SameRuns c key value s t h = elim (Option-cases (s.progress c key)) [
    | inl e ↦ write_progress-SameRuns c key value s t (ground (arith, e, h))
    | inr (held, e) ↦
        write_progress-SameRuns c key (F.add_float held value) s t (ground (arith, e, h))
  ]

  write_flag-SameRuns :
      (c : ℕ) (key : String) (sets : Bool) (s t : ScriptTables F) {b : Unit {0}}
      → (if sets then write_flag F c key else delete_flag F c key) s ≡ ok (b, t)
      → SameRuns s t
  unfolding write_flag delete_flag
  write_flag-SameRuns c key true s t h = record {
    events = ground (arith, h);
    effects = ground (arith, h);
    trace = ground (arith, h);
  }
  write_flag-SameRuns c key false s t h = record {
    events = ground (arith, h);
    effects = ground (arith, h);
    trace = ground (arith, h);
  }

  require-SameRuns :
      (b : Bool) (s t : ScriptTables F) {a : Unit {0}} → require b s ≡ ok (a, t) → SameRuns s t
  require-SameRuns true s t h = SameRuns-refl (ground (arith, h))
  require-SameRuns false s t h = absurd (cc)

  apply_flag-SameRuns :
      (c : ℕ) (effect : ScriptEffect) (sets : Bool) (s t : ScriptTables F) {b : Unit {0}}
      → apply_flag F c effect sets s ≡ ok (b, t)
      → SameRuns s t
  unfolding apply_flag
  apply_flag-SameRuns c effect sets s t h =
      bind-SameRuns _ _ s t (λ u key e. required-SameRuns _ s u e)
        (λ u key k. write_flag-SameRuns c key sets u t k) h

  apply_progress-SameRuns :
      (c : ℕ) (effect : ScriptEffect) (adds : Bool) (s t : ScriptTables F) {b : Unit {0}}
      → apply_progress F c effect adds s ≡ ok (b, t)
      → SameRuns s t
  unfolding apply_progress
  apply_progress-SameRuns c effect adds s t h =
      bind-SameRuns _ _ s t (λ u key e. required-SameRuns _ s u e)
        (λ u key k.
          bind-SameRuns _ _ u t (λ v text e. required-SameRuns _ u v e)
            (λ v text k.
              bind-SameRuns _ _ v t (λ w value e. required-SameRuns _ v w e)
                (λ w value k.
                  bind-SameRuns _ _ w t (λ x _ e. require-SameRuns _ w x e)
                    (λ x _ k. progress adds key value x k) k)
                k)
            k)
        h
    where
      progress :
          (adds : Bool) (key : String) (value : F.Float) (x : ScriptTables F)
          → (if adds then add_progress F c key value else write_progress F c key value) x
            ≡ ok (tt, t)
          → SameRuns x t
      progress true key value x k = add_progress-SameRuns c key value x t k
      progress false key value x k = write_progress-SameRuns c key value x t k

  apply_yen-SameRuns :
      (c run_id : ℕ) (effect : ScriptEffect) (spends : Bool) (s t : ScriptTables F) {b : Unit {0}}
      → apply_yen F c run_id effect spends s ≡ ok (b, t)
      → SameRuns s t
  unfolding apply_yen
  apply_yen-SameRuns c run_id effect spends s t h =
      bind-SameRuns _ _ s t (λ u amount e. positive-SameRuns effect 0 max_int64 s u e)
        (λ u amount k.
          bind-SameRuns _ _ u t (λ v reason e. required-SameRuns _ u v e)
            (λ v reason k.
              bind-SameRuns _ _ v t (λ w _ e. require-SameRuns _ v w e)
                (λ w _ k.
                  bind-SameRuns _ _ w t (λ x _ e. on_db-SameRuns _ w x e)
                    (λ x _ k. on_db-SameRuns _ x t k) k)
                k)
            k)
        h

  apply_item-SameRuns :
      (c run_id : ℕ) (effect : ScriptEffect) (gives : Bool) (s t : ScriptTables F) {b : Unit {0}}
      → apply_item F c run_id effect gives s ≡ ok (b, t)
      → SameRuns s t
  unfolding apply_item apply_item_effect
  apply_item-SameRuns c run_id effect gives s t h =
      bind-SameRuns _ _ s t (λ u item e. required-SameRuns _ s u e)
        (λ u item k.
          bind-SameRuns _ _ u t (λ v n e. positive-SameRuns effect 1 max_int32 u v e)
            (λ v n k.
              bind-SameRuns _ _ v t (λ x _ e. on_db-SameRuns _ v x e)
                (λ x _ k. on_db-SameRuns _ x t k) k)
            k)
        h

  counted-SameRuns :
      (effect : ScriptEffect) (n : ℕ) (m : Tx (ScriptTables F) (Unit {0})) (s t : ScriptTables F)
      {b : Unit {0}}
      → (m s ≡ ok (b, t) → SameRuns s t)
      → counted F effect n m s ≡ ok (b, t)
      → SameRuns s t
  unfolding counted
  counted-SameRuns effect n m s t f h = elim (Bool-cases (length effect.arguments == n)) [
    | inl right ↦ f (ground (arith, right, h))
    | inr wrong ↦ absurd (ground (arith, wrong, h))
  ]

  apply_durable-SameRuns :
      (c run_id : ℕ) (effect : ScriptEffect) (command : Durable) (s t : ScriptTables F)
      {b : Unit {0}}
      → apply_durable F c run_id effect command s ≡ ok (b, t)
      → SameRuns s t
  unfolding apply_durable
  apply_durable-SameRuns c run_id effect set_flag s t h =
      counted-SameRuns effect 1 _ s t (apply_flag-SameRuns c effect true s t) h
  apply_durable-SameRuns c run_id effect clear_flag s t h =
      counted-SameRuns effect 1 _ s t (apply_flag-SameRuns c effect false s t) h
  apply_durable-SameRuns c run_id effect set_progress s t h =
      counted-SameRuns effect 2 _ s t (apply_progress-SameRuns c effect false s t) h
  apply_durable-SameRuns c run_id effect increment_progress s t h =
      counted-SameRuns effect 2 _ s t (apply_progress-SameRuns c effect true s t) h
  apply_durable-SameRuns c run_id effect grant_yen s t h =
      counted-SameRuns effect 2 _ s t (apply_yen-SameRuns c run_id effect false s t) h
  apply_durable-SameRuns c run_id effect spend_yen s t h =
      counted-SameRuns effect 2 _ s t (apply_yen-SameRuns c run_id effect true s t) h
  apply_durable-SameRuns c run_id effect give_item s t h =
      counted-SameRuns effect 2 _ s t (apply_item-SameRuns c run_id effect true s t) h
  apply_durable-SameRuns c run_id effect take_item s t h =
      counted-SameRuns effect 2 _ s t (apply_item-SameRuns c run_id effect false s t) h

  pub apply_script_effect-SameRuns :
      (c run_id : ℕ) (effect : ScriptEffect) (s t : ScriptTables F) {b : Unit {0}}
      → apply_script_effect F c run_id effect s ≡ ok (b, t)
      → SameRuns s t
  unfolding apply_script_effect
  apply_script_effect-SameRuns c run_id effect s t h =
      elim (Option-cases (durable_of effect.name)) [
        | inl unknown ↦ absurd (ground (arith, unknown, h))
        | inr (command, e) ↦
            apply_durable-SameRuns c run_id effect command s t (rw (apply_script_effect, e) at h)
      ]
