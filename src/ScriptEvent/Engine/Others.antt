-- ===== src/ScriptEvent/Engine/Others.antt =====
-- The events that are active, as calls are logged and events become active and end.
use new_yokosuka_server.Base.{
  ℕ, ◌≡◌, refl, sym, ap, subst, ◌∙◌, Bool, true, false, Option, none, some, List, ◌∷◌, arith, ◌==◌,
  Bool-cases, inl, inr, if_true, if_false,
}
use new_yokosuka_server.Base.Maps.{put}
use new_yokosuka_server.Floats.{Floats}
use new_yokosuka_server.ScriptRuntime.{Event}
use new_yokosuka_server.ScriptEvent.Engine.{PublishedScriptEvent, ActiveEvent}
use new_yokosuka_server.ScriptEvent.Engine.Calls.{
  Call, launched, heard, committed, declined, any_event, is_visible, AllJustified,
}
use new_yokosuka_server.ScriptEvent.Engine.Pump.{run_of, token_of}
use new_yokosuka_server.ScriptEvent.Engine.Sessions.{some_inj}
use new_yokosuka_server.ScriptEvent.Engine.Commits.{Played, still_Played, IsScript-of}

other_run : (id j run : ℕ) → (j == id) ≡ false → run ≡ j → (id == run) ≡ false
other_run id j run h e = ground (arith, h, e)

nothing_shown : (b v : Bool) → (b ≡ true → v ≡ true) → v ≡ false → b ≡ false
nothing_shown false v f h = refl
nothing_shown true v f h = sym (f refl) ∙ h

module _ {F : Floats} where
  -- Of the events that are active but one; the log is justified.
  pub record SoundBut (id : ℕ) (log : List (Call F)) (m : ℕ → Option (ActiveEvent F)) : Type 0 where
    pub holds : AllJustified F log
    pub own : (j : ℕ) (a : ActiveEvent F) → (j == id) ≡ false → m j ≡ some a → run_of a ≡ j
    pub played : (j : ℕ) (a : ActiveEvent F) → (j == id) ≡ false → m j ≡ some a → Played log a

  -- The log is justified, and each active event stands under its run and is what was said.
  pub record IsSound (log : List (Call F)) (m : ℕ → Option (ActiveEvent F)) : Type 0 where
    pub holds : AllJustified F log
    pub own : (j : ℕ) (a : ActiveEvent F) → m j ≡ some a → run_of a ≡ j
    pub played : (j : ℕ) (a : ActiveEvent F) → m j ≡ some a → Played log a

  pub but_one :
      (id : ℕ) (log : List (Call F)) (m : ℕ → Option (ActiveEvent F))
      → IsSound log m
      → SoundBut id log m
  but_one id log m s = record {
    holds = s.holds;
    own = λ j a other h. s.own j a h;
    played = λ j a other h. s.played j a h;
  }

  pub heard-SoundBut :
      (id : ℕ) (event : Event) (log : List (Call F)) (m : ℕ → Option (ActiveEvent F))
      → SoundBut id log m
      → SoundBut id (heard id event ∷ log) m
  heard-SoundBut id event log m s = record {
    holds = (tt, s.holds);
    own = s.own;
    played = λ j a other h.
        still_Played log (heard id event ∷ log) a
          (if_false _ _ (id == run_of a) (other_run id j (run_of a) other (s.own j a other h)))
          (s.played j a other h);
  }

  pub launched-SoundBut :
      (published : PublishedScriptEvent F) (log : List (Call F)) (m : ℕ → Option (ActiveEvent F))
      → IsSound log m
      → SoundBut published.run_id (launched published ∷ log) m
  launched-SoundBut published log m s = record {
    holds = (tt, s.holds);
    own = λ j a other h. s.own j a h;
    played = λ j a other h.
        still_Played log (launched published ∷ log) a
          (if_false _ _ (published.run_id == run_of a)
            (other_run published.run_id j (run_of a) other (s.own j a h)))
          (s.played j a h);
  }

  pub dropped-IsSound :
      (id : ℕ) (log : List (Call F)) (m : ℕ → Option (ActiveEvent F))
      → SoundBut id log m
      → IsSound log (put m id none)
  dropped-IsSound id log m s = record {
    holds = s.holds;
    own = λ j a h. elim (Bool-cases (j == id)) [
      | inl same ↦ absurd (ground (arith, same, h))
      | inr other ↦ s.own j a other (ground (arith, other, h))
    ];
    played = λ j a h. elim (Bool-cases (j == id)) [
      | inl same ↦ absurd (ground (arith, same, h))
      | inr other ↦ s.played j a other (ground (arith, other, h))
    ];
  }

  put_same :
      (active : ActiveEvent F) (m : ℕ → Option (ActiveEvent F)) (j : ℕ) (a : ActiveEvent F)
      → (j == run_of active) ≡ true
      → put m (run_of active) (some active) j ≡ some a
      → active ≡ a
  put_same active m j a same h =
      some_inj (sym (if_true (some active) (m j) (j == run_of active) same) ∙ h)

  pub kept-IsSound :
      (active : ActiveEvent F) (log : List (Call F)) (m : ℕ → Option (ActiveEvent F))
      → SoundBut (run_of active) log m
      → Played log active
      → IsSound log (put m (run_of active) (some active))
  kept-IsSound active log m s p = record {
    holds = s.holds;
    own = λ j a h. elim (Bool-cases (j == run_of active)) [
      | inl same ↦
          ap (λ (x : ActiveEvent F). run_of x) (sym (put_same active m j a same h))
          ∙ ground (arith, same)
      | inr other ↦ s.own j a other (ground (arith, other, h))
    ];
    played = λ j a h. elim (Bool-cases (j == run_of active)) [
      | inl same ↦ subst (Played log) (put_same active m j a same h) p
      | inr other ↦ s.played j a other (ground (arith, other, h))
    ];
  }

  pub opened-SoundBut :
      (active : ActiveEvent F) (log : List (Call F)) (m : ℕ → Option (ActiveEvent F))
      → SoundBut (run_of active) log m
      → SoundBut (run_of active) log (put m (run_of active) (some active))
  opened-SoundBut active log m s = record {
    holds = s.holds;
    own = λ j a other h. s.own j a other (ground (arith, other, h));
    played = λ j a other h. s.played j a other (ground (arith, other, h));
  }

  pub committed-SoundBut :
      (active : ActiveEvent F) (log : List (Call F)) (m : ℕ → Option (ActiveEvent F))
      → SoundBut (run_of active) log m
      → Played log active
      → active.completion_requested ≡ true
      → SoundBut
          (run_of active)
          (committed
              (run_of active)
              (token_of active)
              active.published.state.revision
              active.state.effects
            ∷ log)
          m
  committed-SoundBut active log m s p flag = record {
    holds = ((p.events, IsScript-of log active p, p.asked flag), s.holds);
    own = s.own;
    played = λ j a other h. still_Played log _ a refl (s.played j a other h);
  }

  pub declined-SoundBut :
      (active : ActiveEvent F) (log : List (Call F)) (m : ℕ → Option (ActiveEvent F))
      → SoundBut (run_of active) log m
      → Played log active
      → active.visible_yielded ≡ false
      → SoundBut
          (run_of active)
          (declined
              (run_of active)
              (token_of active)
              active.published.state.revision
              active.state.effects
            ∷ log)
          m
  declined-SoundBut active log m s p flag = record {
    holds = (
      (
        p.events,
        IsScript-of log active p,
        nothing_shown (any_event is_visible p.events) active.visible_yielded p.shown flag,
      ),
      s.holds,
    );
    own = s.own;
    played = λ j a other h. still_Played log _ a refl (s.played j a other h);
  }
