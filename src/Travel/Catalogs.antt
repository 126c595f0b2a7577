-- ===== src/Travel/Catalogs.antt =====
-- What a catalog that was loaded holds.
use new_yokosuka_server.Base.{
  Bool, true, false, ◌≡◌, ◌⊎◌, inl, inr, refl, String, Option, none, some, List, [], ◌∷◌, arith,
  eq_iff, is_some, Bool-cases, sym, ap, ◌∙◌, if◌then◌else◌,
}
use new_yokosuka_server.Base.Keyed.{load_keyed, load_keyed-Indexes, Indexes}
use new_yokosuka_server.Base.Lists.{All}
use mathlib.Core.List.{Mem}
use new_yokosuka_server.Floats.{Floats}
use new_yokosuka_server.Travel.{
  Rule, Manifest, Catalog, AccessError, validate_rule, duplicate_transition, controls, load_rules,
  load_interiors, load, no_interiors, no_rules, unsupported_schema, find_rule, controls_destination,
  is_always_accessible,
}

module _ (F : Floats) where
  -- The rule passed its test, is found under its transition, and leads to a world that is always
  -- accessible or controlled.
  pub record IsServed (catalog : Catalog F) (rule : Rule F) : Type 0 where
    pub valid : validate_rule F rule ≡ none
    pub found : find_rule F catalog rule.transition_id ≡ some rule
    pub destination :
        (is_always_accessible F catalog rule.destination.world_id ≡ true)
        ⊎ (controls_destination F catalog rule.destination.world_id ≡ true)

  abbrev Always : Type 0
  Always = String → Option String

  controls_self :
      (always : Always) (r : Rule F) (rules : List (Rule F))
      → is_some (always r.destination.world_id) ≡ false
      → controls F always (r ∷ rules) r.destination.world_id ≡ true
  unfolding controls
  controls_self always r rules h =
      ground (arith, h, eq_iff r.destination.world_id r.destination.world_id)

  controls_later :
      (always : Always) (r : Rule F) (rules : List (Rule F)) (w : String)
      → controls F always rules w ≡ true
      → controls F always (r ∷ rules) w ≡ true
  unfolding controls
  controls_later always r rules w h = ground (arith, h)

  abbrev Leads : Always → List (Rule F) → Rule F → Type 0
  Leads always rules r =
      (is_some (always r.destination.world_id) ≡ true)
      ⊎ (controls F always rules r.destination.world_id ≡ true)

  All-map :
      {P Q : Rule F → Type 0} (rules : List (Rule F))
      → ((r : Rule F) → P r → Q r)
      → All P rules
      → All Q rules
  All-map [] f h = tt
  All-map (r ∷ rules) f (p, h) = (f r p, All-map rules f h)

  All-Leads : (always : Always) (rules : List (Rule F)) → All (Leads always rules) rules
  All-Leads always [] = tt
  All-Leads always (r ∷ rules) = (
    elim (Bool-cases (is_some (always r.destination.world_id))) [
      | inl open_always ↦ inl open_always
      | inr closed ↦ inr (controls_self always r rules closed)
    ],
    All-map rules
        (λ q h. elim h [
          | inl e ↦ inl e
          | inr e ↦ inr (controls_later always r rules q.destination.world_id e)
        ])
        (All-Leads always rules),
  )

  All-both :
      (P Q : Rule F → Type 0) (rules : List (Rule F))
      → All P rules
      → All Q rules
      → All (λ r. P r × Q r) rules
  All-both P Q [] p q = tt
  All-both P Q (r ∷ rules) (p, ps) (q, qs) = ((p, q), All-both P Q rules ps qs)

  -- What the two maps of a catalog hold, after its rules were loaded.
  record Built (manifest : Manifest F) (always : Always) (catalog : Catalog F) : Type 0 where
    index :
        Indexes
          (validate_rule F)
          duplicate_transition
          (λ (r : Rule F). r.transition_id)
          manifest.rules
          (λ k. none)
          catalog.by_transition_id
    controlled : catalog.controlled_world_ids ≡ controls F always manifest.rules
    always_open : catalog.always_accessible_world_ids ≡ always

  abbrev loaded_rules : Manifest F → AccessError ⊎ (String → Option (Rule F))
  loaded_rules manifest =
      load_keyed (validate_rule F) duplicate_transition (λ (r : Rule F). r.transition_id)
        manifest.rules (λ k. none)

  inr_inj : {A : Type 0} {u v : A} → ◌≡◌ {A = AccessError ⊎ A} (inr u) (inr v) → u ≡ v
  inr_inj h = cc

  load_rules-Built :
      (manifest : Manifest F) (always : Always) (catalog : Catalog F)
      → load_rules F manifest always ≡ inr catalog
      → Built manifest always catalog
  unfolding load_rules
  load_rules-Built manifest always catalog h = go (loaded_rules manifest) refl h
    where
      go :
          (r : AccessError ⊎ (String → Option (Rule F)))
          → loaded_rules manifest ≡ r
          → (elim r as (λ x. AccessError ⊎ Catalog F) [
            | inl e ↦ inl e
            | inr rules ↦ inr (record {
              by_transition_id = rules;
              controlled_world_ids = controls F always manifest.rules;
              always_accessible_world_ids = always;
            })
          ])
            ≡ inr catalog
          → Built manifest always catalog
      go (inl e) q g = absurd (cc)
      go (inr rules) q g =
          let same = inr_inj g in
          record {
            index =
                load_keyed-Indexes (validate_rule F) duplicate_transition
                  (λ (r : Rule F). r.transition_id) manifest.rules (λ k. none)
                  catalog.by_transition_id
                  (q ∙ ap (λ (c : Catalog F). inr c.by_transition_id) same);
            controlled = sym (ap (λ (c : Catalog F). c.controlled_world_ids) same);
            always_open = sym (ap (λ (c : Catalog F). c.always_accessible_world_ids) same);
          }

  refused_inr :
      {A : Type 0} (e : AccessError) (v : A) → ◌≡◌ {A = AccessError ⊎ A} (inl e) (inr v) → ⊥
  refused_inr e v h = absurd (cc)

  if_inr :
      (b : Bool) (e : AccessError) (x : AccessError ⊎ Catalog F) (catalog : Catalog F)
      → (if b then inl e else x) ≡ inr catalog
      → x ≡ inr catalog
  if_inr true e x catalog h = absurd (refused_inr e catalog h)
  if_inr false e x catalog h = h

  load_interiors-Built :
      (manifest : Manifest F) (r : AccessError ⊎ Always) (catalog : Catalog F)
      → load_interiors F manifest r ≡ inr catalog
      → (always : Always) × Built manifest always catalog
  unfolding load_interiors
  load_interiors-Built manifest (inl e) catalog h = absurd (refused_inr e catalog h)
  load_interiors-Built manifest (inr always) catalog h =
      (always, load_rules-Built manifest always catalog (if_inr _ no_interiors _ catalog h))

  load-Built :
      (manifest : Manifest F) (catalog : Catalog F)
      → load F manifest ≡ inr catalog
      → (always : Always) × Built manifest always catalog
  unfolding load
  load-Built manifest catalog h =
      load_interiors-Built manifest _ catalog
        (if_inr _ no_rules _ catalog (if_inr _ unsupported_schema _ catalog h))

  Built-IsServed :
      (manifest : Manifest F) (always : Always) (catalog : Catalog F)
      → Built manifest always catalog
      → All (IsServed catalog) manifest.rules
  unfolding find_rule controls_destination is_always_accessible
  Built-IsServed manifest always catalog b =
      All-map manifest.rules
        (λ r ((valid, found), leads). record {
          valid = valid;
          found = found;
          destination = elim leads [
            | inl e ↦
                inl (ap (λ (m : Always). is_some (m r.destination.world_id)) b.always_open ∙ e)
            | inr e ↦ inr (ap (λ (m : String → Bool). m r.destination.world_id) b.controlled ∙ e)
          ];
        })
        (All-both _ _ manifest.rules (All-both _ _ manifest.rules b.index.checked b.index.found)
          (All-Leads always manifest.rules))

  -- What was looked up under a transition, if anything, is a rule of the list for it.
  abbrev pub IsRuleFor : String → List (Rule F) → Option (Rule F) → Type 0
  IsRuleFor transition_id rules none = Unit
  IsRuleFor transition_id rules (some rule) = Mem rule rules × (rule.transition_id ≡ transition_id)

  only-IsRuleFor :
      (transition_id : String) (rules : List (Rule F)) (o : Option (Rule F))
      → ((rule : Rule F)
          → o ≡ some rule
          → (◌≡◌ {A = Option (Rule F)} none (some rule))
            ⊎ (Mem rule rules × (rule.transition_id ≡ transition_id)))
      → IsRuleFor transition_id rules o
  only-IsRuleFor transition_id rules none h = tt
  only-IsRuleFor transition_id rules (some rule) h = elim (h rule refl) [
    | inl impossible ↦ absurd (cc)
    | inr known ↦ known
  ]

  -- Every rule of a manifest that was loaded passed its test, is found under its transition, and
  -- leads to a world that is always accessible or controlled; and what is found under any transition
  -- is a rule of the manifest for it.
  pub load-IsServed :
      (manifest : Manifest F) (catalog : Catalog F) (transition_id : String)
      → load F manifest ≡ inr catalog
      → All (IsServed catalog) manifest.rules
        × IsRuleFor transition_id manifest.rules (find_rule F catalog transition_id)
  unfolding find_rule
  load-IsServed manifest catalog transition_id h =
      let (always, b) = load-Built manifest catalog h in
      (
        Built-IsServed manifest always catalog b,
        only-IsRuleFor transition_id manifest.rules (catalog.by_transition_id transition_id)
            (b.index.only transition_id),
      )
