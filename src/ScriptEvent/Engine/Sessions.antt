-- ===== src/ScriptEvent/Engine/Sessions.antt =====
-- The sessions that the engine holds open.
use new_yokosuka_server.Base.{
  ℕ, ◌≡◌, Bool, true, false, not, ◌&&◌, Option, arith, ◌==◌, inl, inr, Bool-cases, if_true, sym, ap,
  ◌∙◌, is_some, ==_iff, some, Bool-cases,
}
use new_yokosuka_server.Floats.{Floats}
use new_yokosuka_server.Store.Transaction.{Result, ok, err, Error}
use new_yokosuka_server.ScriptEvent.Engine.{
  EventKind, at_command, at_line, at_options, kind_of, Yield, ActiveEvent, World, put,
}
use new_yokosuka_server.ScriptEvent.Engine.Pump.{
  Answer, run_of, keep, drop_event, open_session, with_repository,
}

-- A yield that waits for the player.
unfoldable pub is_live_kind : EventKind → Bool
is_live_kind at_line = true
is_live_kind at_options = true
is_live_kind at_command = true
is_live_kind _ = false

pub some_inj :
    {F : Floats} {a b : ActiveEvent F} → ◌≡◌ {A = Option (ActiveEvent F)} (some a) (some b) → a ≡ b
some_inj h = cc

unfoldable pub is_live : (F : Floats) → Yield F → Bool
is_live F yield = is_live_kind (kind_of yield.runtime_event.type_name)

module _ (F : Floats) (R : Type 0) where
  -- An event is active, under the identifier of its run, just when its session is open.
  pub record IsTracked (w : World F R) : Type 0 where
    pub same : (id : ℕ) → is_some (w.active id) ≡ w.sessions id
    pub keyed : (id : ℕ) (active : ActiveEvent F) → w.active id ≡ some active → run_of active ≡ id

module _ {F : Floats} {R : Type 0} where
  -- The events that are active after an answer: that of a yield just when it waits for the player,
  -- and after an error neither the one that ran nor one that was not active.
  unfoldable pub IsSettled :
      ℕ → (ℕ → Option (ActiveEvent F)) → Result (Yield F) → World F R → Type 0
  IsSettled run before (ok yield) w = is_some (w.active yield.run_id) ≡ is_live F yield
  IsSettled run before (err e) w =
      (id : ℕ) → (is_some (before id) && not (id == run)) ≡ false → is_some (w.active id) ≡ false

  pub record Settles (run : ℕ) (before : ℕ → Option (ActiveEvent F)) (answer : Answer F R)
      : Type 0 where
    pub tracked : IsTracked F R answer.1
    pub settled : IsSettled run before answer.0 answer.1

  pub tracks : {w : World F R} → IsTracked F R w → (r : R) → IsTracked F R (with_repository w r)
  tracks t r = record { same = t.same; keyed = t.keyed }

  pub drop_event-IsTracked :
      (active : ActiveEvent F) {w : World F R}
      → IsTracked F R w
      → IsTracked F R (drop_event active w)
  drop_event-IsTracked active {w} t = record {
    same = λ id. ground (arith, t.same id);
    keyed = λ id a h. elim (Bool-cases (id == run_of active)) [
      | inl same ↦ absurd (ground (arith, same, h))
      | inr other ↦ t.keyed id a (ground (arith, other, h))
    ];
  }

  put-keyed :
      (active : ActiveEvent F) {w : World F R}
      → IsTracked F R w
      → (id : ℕ) (a : ActiveEvent F) → put w.active (run_of active) (some active) id ≡ some a
      → run_of a ≡ id
  put-keyed active {w = w} t id a h = elim (Bool-cases (id == run_of active)) [
    | inl same ↦
        ap (λ (x : ActiveEvent F). run_of x)
          (sym
            (some_inj (sym (if_true (some active) (w.active id) (id == run_of active) same) ∙ h)))
        ∙ sym ((==_iff id (run_of active)).0 same)
    | inr other ↦ t.keyed id a (ground (arith, other, h))
  ]

  keep-IsTracked :
      (active : ActiveEvent F) {w : World F R}
      → IsTracked F R w
      → w.sessions (run_of active) ≡ true
      → IsTracked F R (keep active w)
  keep-IsTracked active {w} t opened = record {
    same = λ id. ground (arith, ==_iff id (run_of active), opened, t.same id);
    keyed = put-keyed active t;
  }

  pub open_session-IsTracked :
      (active : ActiveEvent F) {w : World F R}
      → IsTracked F R w
      → IsTracked F R (open_session active w)
  open_session-IsTracked active {w} t = record {
    same = λ id. ground (arith, t.same id);
    keyed = put-keyed active t;
  }

  -- An error, with the event removed.
  pub removed-Settles :
      (active : ActiveEvent F) (e : Error) (w : World F R) (r : R)
      → IsTracked F R w
      → Settles (run_of active) w.active (err e, with_repository (drop_event active w) r)
  unfolding IsSettled
  removed-Settles active e w r t = record {
    tracked = tracks (drop_event-IsTracked active t) r;
    settled = λ id gone. ground (arith, gone);
  }

  -- A yield that waits, with the event kept.
  pub shown-Settles :
      (active : ActiveEvent F) (yield : Yield F) (w : World F R)
      → yield.run_id ≡ run_of active
      → is_live F yield ≡ true
      → IsTracked F R w
      → w.sessions (run_of active) ≡ true
      → Settles
          (run_of active)
          w.active
          (ok yield, keep (record active { visible_yielded = true }) w)
  unfolding IsSettled
  shown-Settles active yield w same live t opened = record {
    tracked = keep-IsTracked (record active { visible_yielded = true }) t opened;
    settled = ground (arith, same, live);
  }

  -- A yield that ends the event.
  pub ended-Settles :
      (active : ActiveEvent F) (yield : Yield F) (w : World F R) (r : R)
      → yield.run_id ≡ run_of active
      → is_live F yield ≡ false
      → IsTracked F R w
      → Settles (run_of active) w.active (ok yield, drop_event active (with_repository w r))
  unfolding IsSettled
  ended-Settles active yield w r same over t = record {
    tracked = drop_event-IsTracked active (tracks t r);
    settled = ground (arith, same, over);
  }
