-- ===== src/VendingCatalog.antt =====
-- internal/vending/catalog.go: the products and machines of the vending manifest, which is taken as
-- decoded. Names of models and sources that are only passed on are left out.
pub mod Loaded
pub mod Draws
pub mod Examples
use new_yokosuka_server.Base.{
  ℕ, Bool, true, false, not, ◌&&◌, ◌||◌, String, Option, none, some, List, [], ◌∷◌, str_eq,
  if◌then◌else◌, ◌⊎◌, inl, inr,
}
use new_yokosuka_server.Base.Int.{ℤ, pos, leb_ℤ, ltb_ℤ}
use new_yokosuka_server.Base.Keyed.{load_keyed}
use new_yokosuka_server.Floats.{Floats}

pub data CatalogError : Type 0 where
  unsupported_schema bad_price bad_chance incomplete_product duplicate_product : CatalogError
  incomplete_machine duplicate_machine empty_catalog : CatalogError

pub record Product : Type 0 where
  pub key : String
  pub name : String
  pub resource_code : String
  pub temperature : String

pub record Prize : Type 0 where
  pub key : String
  pub name : String
  pub resource_code : String

pub record Chance : Type 0 where
  pub numerator : ℤ
  pub denominator : ℤ

-- Numerator over denominator lies strictly between 0 and 1.
abbrev pub is_bad_chance : Chance → Bool
is_bad_chance chance =
    leb_ℤ chance.numerator (pos 0)
    || leb_ℤ chance.denominator (pos 0)
    || leb_ℤ chance.denominator chance.numerator

abbrev pub is_empty : {A : Type 0} → List A → Bool
is_empty [] = true
is_empty (x ∷ xs) = false

unfoldable pub check_product : Product → Option CatalogError
check_product product =
    if str_eq product.key "" || str_eq product.name "" || str_eq product.resource_code ""
    then some incomplete_product
    else none

module _ (F : Floats) where
  pub record Machine : Type 0 where
    pub id : String
    pub world_id : String
    pub position : F.Float × F.Float × F.Float
    pub interaction_radius : F.Float

  pub record Manifest : Type 0 where
    pub schema : String
    pub unit_price : ℤ
    pub winning_can_chance : Chance
    pub products : List Product
    pub prize : Prize
    pub machines : List Machine

  pub record Catalog : Type 0 where
    pub manifest : Manifest
    pub products : String → Option Product
    pub machines : String → Option Machine
    pub product_set : List Product

  unfoldable pub check_machine : Machine → Option CatalogError
  check_machine machine =
      if str_eq machine.id ""
        || str_eq machine.world_id ""
        || F.le_float machine.interaction_radius F.zero_float
      then some incomplete_machine
      else none

  unfoldable pub finish_load :
      Manifest
      → (String → Option Product)
      → CatalogError ⊎ (String → Option Machine)
      → CatalogError ⊎ Catalog
  finish_load manifest products (inl e) = inl e
  finish_load manifest products (inr machines) =
      if is_empty manifest.products || is_empty manifest.machines
      then inl empty_catalog
      else inr (record {
        manifest = manifest;
        products = products;
        machines = machines;
        product_set = manifest.products;
      })

  unfoldable pub load_machines :
      Manifest → CatalogError ⊎ (String → Option Product) → CatalogError ⊎ Catalog
  load_machines manifest (inl e) = inl e
  load_machines manifest (inr products) = finish_load manifest products (
      load_keyed check_machine duplicate_machine (λ (m : Machine). m.id) manifest.machines
        (λ k. none))

  unfoldable pub load : Manifest → CatalogError ⊎ Catalog
  load manifest =
      if not (str_eq manifest.schema "new-yokosuka-vending-manifest-v1")
      then inl unsupported_schema
      else if leb_ℤ manifest.unit_price (pos 0)
      then inl bad_price
      else if is_bad_chance manifest.winning_can_chance
      then inl bad_chance
      else load_machines manifest (
          load_keyed check_product duplicate_product (λ (p : Product). p.key) manifest.products
            (λ k. none))

  -- The methods of the catalog.
  unfoldable pub find_product : Catalog → String → Option Product
  find_product catalog key = catalog.products key

  unfoldable pub find_machine : Catalog → String → Option Machine
  find_machine catalog id = catalog.machines id

  unfoldable pub is_near : Machine → String → F.Float → F.Float → Bool
  is_near machine world_id x z =
      if not (str_eq world_id machine.world_id)
        || F.is_nan x
        || F.is_inf x
        || F.is_nan z
        || F.is_inf z
      then false
      else let dx = F.sub_float x machine.position.0 in
        let dz = F.sub_float z machine.position.2 in
        F.le_float (F.add_float (F.mul_float dx dx) (F.mul_float dz dz))
          (F.mul_float machine.interaction_radius machine.interaction_radius)

  unfoldable pub is_winning_draw : Catalog → ℤ → Bool
  is_winning_draw catalog value =
      let chance = catalog.manifest.winning_can_chance in
      if ltb_ℤ value (pos 0) || leb_ℤ chance.denominator value
      then false
      else ltb_ℤ value chance.numerator
