-- ===== src/ScriptContent/Triggers/Accepted.antt =====
-- The triggers that are accepted without a diagnostic.
use new_yokosuka_server.Base.{
  ◌≤◌, ◌≡◌, refl, sym, ap, ◌∙◌, Bool, true, false, not, ◌||◌, String, List, [], ◌∷◌, map, arith,
  ltb, if_true, if_false, Bool-cases, inl, inr,
}
use new_yokosuka_server.Base.Lists.{length}
use new_yokosuka_server.Base.Text.{trim_space}
use new_yokosuka_server.ScriptContent.Triggers.{
  Trigger, TriggerProblem, TriggerDiagnostic, normalize_trigger_selector, normalize_trigger,
  mem_text, is_missing_selector, is_bad_priority, trigger_problems, check_triggers,
  validate_yarn_triggers, is_absent, max_yarn_triggers, when, node_missing, bad_priority,
  bad_selector, node_not_unique, too_many_triggers,
}

-- A trigger that raises nothing: its node is in the program, its priority in range, and its selector
-- has a normal form.
pub record IsAccepted (nodes : List String) (t : Trigger) : Type 0 where
  pub node : mem_text (trim_space t.node_id) nodes ≡ true
  pub priority : is_bad_priority t.priority ≡ false
  pub selector : is_missing_selector (normalize_trigger_selector t.selector) ≡ false

-- All are accepted, each under a node of its own.
unfoldable pub AllAccepted : List String → List String → List Trigger → Type 0
AllAccepted nodes seen [] = Unit
AllAccepted nodes seen (t ∷ ts) =
    (is_absent (trim_space t.node_id) ≡ false)
    × (mem_text (trim_space t.node_id) seen ≡ false)
    × IsAccepted nodes t
    × AllAccepted nodes (trim_space t.node_id ∷ seen) ts

abbrev fst_of : List Trigger × List TriggerDiagnostic → List Trigger
fst_of p = p.0

abbrev snd_of : List Trigger × List TriggerDiagnostic → List TriggerDiagnostic
snd_of p = p.1

no_row :
    (d : TriggerDiagnostic) (ds : List TriggerDiagnostic)
    → ◌≡◌ {A = List TriggerDiagnostic} (d ∷ ds) []
    → ⊥
no_row d ds h = absurd (cc)

when_nothing :
    (b : Bool) (node : String) (problem : TriggerProblem) (rest : List TriggerDiagnostic)
    → when b node problem rest ≡ []
    → (b ≡ false) × (rest ≡ [])
when_nothing true node problem rest h = absurd (cc)
when_nothing false node problem rest h = (refl, h)

not-false : (b : Bool) → not b ≡ false → b ≡ true
not-false true h = refl
not-false false h = absurd (cc)

no_problems :
    (nodes : List String) (t : Trigger) (rest : List TriggerDiagnostic)
    → trigger_problems nodes t rest ≡ []
    → IsAccepted nodes t × (rest ≡ [])
unfolding trigger_problems
no_problems nodes t rest h =
    let (known, h) = when_nothing _ _ node_missing _ h in
    let (ranged, h) = when_nothing _ _ bad_priority _ h in
    let (selected, h) = when_nothing _ _ bad_selector _ h in
    (record { node = not-false _ known; priority = ranged; selector = selected }, h)

check_triggers_accepts :
    (nodes seen : List String) (triggers : List Trigger)
    → (check_triggers nodes seen triggers).1 ≡ []
    → AllAccepted nodes seen triggers
      × ((check_triggers nodes seen triggers).0 ≡ map normalize_trigger triggers)
unfolding check_triggers AllAccepted
check_triggers_accepts nodes seen [] h = (tt, refl)
check_triggers_accepts nodes seen (t ∷ ts) h =
    let node = trim_space t.node_id in
    let skipped = check_triggers nodes seen ts in
    let checked = check_triggers nodes (node ∷ seen) ts in
    let skip = is_absent node || mem_text node seen in
    let refused : List Trigger × List TriggerDiagnostic =
      (skipped.0, record { node = node; problem = node_not_unique } ∷ skipped.1) in
    let taken : List Trigger × List TriggerDiagnostic =
      (normalize_trigger t ∷ checked.0, trigger_problems nodes t checked.1) in
    elim (Bool-cases skip) [
      | inl e ↦ absurd (no_row _ _ (sym (ap snd_of (if_true refused taken skip e)) ∙ h))
      | inr e ↦
          let same = if_false refused taken skip e in
          let (accepted, rest) = no_problems nodes t checked.1 (sym (ap snd_of same) ∙ h) in
          let (all, normal) = check_triggers_accepts nodes (node ∷ seen) ts rest in
          (
            (ground (arith, e), ground (arith, e), accepted, all),
            ap fst_of same ∙ ap (λ ns. normalize_trigger t ∷ ns) normal,
          )
    ]

-- If no diagnostic is reported of the triggers of a script version, then there are at most 32, and
-- each, in their order, is returned in its normal form: its node is named, is in the program and is
-- no other trigger's, its priority lies from -1000 to 1000, and its selector is one that its kind
-- has.
pub validate_yarn_triggers_accepts :
    (triggers : List Trigger) (nodes : List String)
    → (validate_yarn_triggers triggers nodes).1 ≡ []
    → (length triggers ≤ max_yarn_triggers)
      × AllAccepted nodes [] triggers
      × ((validate_yarn_triggers triggers nodes).0 ≡ map normalize_trigger triggers)
unfolding validate_yarn_triggers
validate_yarn_triggers_accepts triggers nodes h =
    let many = ltb max_yarn_triggers (length triggers) in
    let refused : List Trigger × List TriggerDiagnostic =
      ([], record { node = ""; problem = too_many_triggers } ∷ []) in
    elim (Bool-cases many) [
      | inl e ↦ absurd (
          no_row _ _
            (sym (ap snd_of (if_true refused (check_triggers nodes [] triggers) many e)) ∙ h))
      | inr e ↦
          let same = if_false refused (check_triggers nodes [] triggers) many e in
          let (all, normal) = check_triggers_accepts nodes [] triggers (sym (ap snd_of same) ∙ h) in
          (ground (arith, e), all, ap fst_of same ∙ normal)
    ]
