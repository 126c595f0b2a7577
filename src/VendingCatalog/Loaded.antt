-- ===== src/VendingCatalog/Loaded.antt =====
-- What a catalog that was loaded holds.
use new_yokosuka_server.Base.{
  Bool, true, false, ◌≡◌, ◌⊎◌, inl, inr, refl, String, Option, none, some, List, if◌then◌else◌, sym,
  ap, ◌∙◌,
}
use new_yokosuka_server.Base.Int.{pos, leb_ℤ}
use new_yokosuka_server.Base.Keyed.{load_keyed, load_keyed-Indexes, Indexes}
use new_yokosuka_server.Base.Lists.{All}
use mathlib.Core.List.{Mem}
use new_yokosuka_server.Floats.{Floats}
use new_yokosuka_server.VendingCatalog.{
  CatalogError, Product, Machine, Manifest, Catalog, is_bad_chance, check_product, check_machine,
  duplicate_product, duplicate_machine, finish_load, load_machines, load, find_product,
  find_machine, unsupported_schema, bad_price, bad_chance, empty_catalog,
}

-- What was looked up under a key, if anything, is of the list and has the key.
abbrev pub IsListed : {A : Type 0} → (A → String) → List A → String → Option A → Type 0
IsListed key_of xs key none = Unit
IsListed key_of xs key (some x) = Mem x xs × (key_of x ≡ key)

only-IsListed :
    {A : Type 0} (key_of : A → String) (xs : List A) (key : String) (o : Option A)
    → ((x : A) → o ≡ some x → (◌≡◌ {A = Option A} none (some x)) ⊎ (Mem x xs × (key_of x ≡ key)))
    → IsListed key_of xs key o
only-IsListed key_of xs key none h = tt
only-IsListed key_of xs key (some x) h = elim (h x refl) [
  | inl impossible ↦ absurd (cc)
  | inr known ↦ known
]

module _ (F : Floats) where
  -- The manifest of the catalog passed the tests, and its two maps are those of its two lists.
  pub record Holds (manifest : Manifest F) (catalog : Catalog F) : Type 0 where
    pub same : catalog.manifest ≡ manifest
    pub price : leb_ℤ manifest.unit_price (pos 0) ≡ false
    pub chance : is_bad_chance manifest.winning_can_chance ≡ false
    pub products :
        Indexes check_product duplicate_product
          (λ (p : Product). p.key)
          manifest.products
          (λ k. none)
          catalog.products
    pub machines :
        Indexes
          (check_machine F)
          duplicate_machine
          (λ (m : Machine F). m.id)
          manifest.machines
          (λ k. none)
          catalog.machines

  refused_inr :
      (e : CatalogError) (c : Catalog F) → ◌≡◌ {A = CatalogError ⊎ Catalog F} (inl e) (inr c) → ⊥
  refused_inr e c h = absurd (cc)

  inr_inj : {c d : Catalog F} → ◌≡◌ {A = CatalogError ⊎ Catalog F} (inr c) (inr d) → c ≡ d
  inr_inj h = cc

  if_inr :
      (b : Bool) (e : CatalogError) (x : CatalogError ⊎ Catalog F) (c : Catalog F)
      → (if b then inl e else x) ≡ inr c
      → (b ≡ false) × (x ≡ inr c)
  if_inr true e x c h = absurd (refused_inr e c h)
  if_inr false e x c h = (refl, h)

  record Maps (manifest : Manifest F) (ps : String → Option Product)
      (ms : String → Option (Machine F)) (catalog : Catalog F) : Type 0 where
    same : catalog.manifest ≡ manifest
    products : ps ≡ catalog.products
    machines : ms ≡ catalog.machines

  finish_load-Maps :
      (manifest : Manifest F) (ps : String → Option Product) (ms : String → Option (Machine F))
      (catalog : Catalog F)
      → finish_load F manifest ps (inr ms) ≡ inr catalog
      → Maps manifest ps ms catalog
  unfolding finish_load
  finish_load-Maps manifest ps ms catalog h =
      let e = inr_inj (if_inr _ empty_catalog _ catalog h).1 in
      record {
        same = sym (ap (λ (c : Catalog F). c.manifest) e);
        products = ap (λ (c : Catalog F). c.products) e;
        machines = ap (λ (c : Catalog F). c.machines) e;
      }

  finish_load-Holds :
      (manifest : Manifest F) (ps : String → Option Product)
      (r : CatalogError ⊎ (String → Option (Machine F))) (catalog : Catalog F)
      → leb_ℤ manifest.unit_price (pos 0) ≡ false
      → is_bad_chance manifest.winning_can_chance ≡ false
      → load_keyed check_product duplicate_product
          (λ (p : Product). p.key)
          manifest.products
          (λ k. none)
        ≡ inr ps
      → load_keyed
          (check_machine F)
          duplicate_machine
          (λ (m : Machine F). m.id)
          manifest.machines
          (λ k. none)
        ≡ r
      → finish_load F manifest ps r ≡ inr catalog
      → Holds manifest catalog
  unfolding finish_load
  finish_load-Holds manifest ps (inl e) catalog price chance p q h =
      absurd (refused_inr e catalog h)
  finish_load-Holds manifest ps (inr ms) catalog price chance p q h =
      let maps = finish_load-Maps manifest ps ms catalog h in
      record {
        same = maps.same;
        price = price;
        chance = chance;
        products =
            load_keyed-Indexes check_product duplicate_product (λ (p : Product). p.key)
              manifest.products (λ k. none) catalog.products (p ∙ ap inr maps.products);
        machines =
            load_keyed-Indexes (check_machine F) duplicate_machine (λ (m : Machine F). m.id)
              manifest.machines (λ k. none) catalog.machines (q ∙ ap inr maps.machines);
      }

  load_machines-Holds :
      (manifest : Manifest F) (r : CatalogError ⊎ (String → Option Product)) (catalog : Catalog F)
      → leb_ℤ manifest.unit_price (pos 0) ≡ false
      → is_bad_chance manifest.winning_can_chance ≡ false
      → load_keyed check_product duplicate_product
          (λ (p : Product). p.key)
          manifest.products
          (λ k. none)
        ≡ r
      → load_machines F manifest r ≡ inr catalog
      → Holds manifest catalog
  unfolding load_machines
  load_machines-Holds manifest (inl e) catalog price chance p h = absurd (refused_inr e catalog h)
  load_machines-Holds manifest (inr ps) catalog price chance p h =
      finish_load-Holds manifest ps _ catalog price chance p refl h

  pub load-Holds :
      (manifest : Manifest F) (catalog : Catalog F)
      → load F manifest ≡ inr catalog
      → Holds manifest catalog
  unfolding load
  load-Holds manifest catalog h =
      let (_, h1) = if_inr _ unsupported_schema _ catalog h in
      let (price, h2) = if_inr _ bad_price _ catalog h1 in
      let (chance, h3) = if_inr _ bad_chance _ catalog h2 in
      load_machines-Holds manifest _ catalog price chance refl h3

  -- In a catalog that was loaded every product and every machine of the manifest is found under its
  -- key, and what is found under any key is a product or a machine of the manifest with that key.
  pub load_finds :
      (manifest : Manifest F) (catalog : Catalog F) (key id : String)
      → load F manifest ≡ inr catalog
      → All (λ (p : Product). find_product F catalog p.key ≡ some p) manifest.products
        × All (λ (m : Machine F). find_machine F catalog m.id ≡ some m) manifest.machines
        × IsListed (λ (p : Product). p.key) manifest.products key (find_product F catalog key)
        × IsListed (λ (m : Machine F). m.id) manifest.machines id (find_machine F catalog id)
  unfolding find_product find_machine
  load_finds manifest catalog key id h =
      let holds = load-Holds manifest catalog h in
      (
        holds.products.found,
        holds.machines.found,
        only-IsListed _ _ key (catalog.products key) (holds.products.only key),
        only-IsListed _ _ id (catalog.machines id) (holds.machines.only id),
      )
