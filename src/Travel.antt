-- ===== src/Travel.antt =====
-- internal/travelaccess/access.go: the doors that are open at certain hours of the game's clock.
-- The manifest is taken as decoded; its fields that are only passed on are left out.
pub mod Hours
pub mod Catalogs
pub mod Examples
use new_yokosuka_server.Base.{
  ℕ, ◌+◌, ◌*◌, Bool, true, false, not, ◌&&◌, ◌||◌, String, Option, none, some, List, [], ◌∷◌,
  str_eq, is_some, if◌then◌else◌, ◌⊎◌, inl, inr,
}
use new_yokosuka_server.Base.Int.{ℤ, pos, sub_ℕ, pos_part, neg_part, leb_ℤ, ltb_ℤ}
use new_yokosuka_server.Base.Keyed.{load_keyed}
use new_yokosuka_server.Base.Text.{trim_space}
use new_yokosuka_server.Floats.{Floats}

pub data AccessError : Type 0 where
  unsupported_schema no_rules invalid_world duplicate_interior no_interiors : AccessError
  missing_id incomplete_route bad_position bad_limit bad_window bad_policy : AccessError
  duplicate_transition : AccessError

pub record OpenWindow : Type 0 where
  pub kind : String
  pub start_minute : ℤ
  pub end_minute : ℤ
  pub day_boundary_hour : ℤ
  pub boundary : String

pub record Destination : Type 0 where
  pub world_id : String
  pub area : String
  pub entry : ℤ

-- A time of day of the game's clock, in UTC.
pub record TimeOfDay : Type 0 where
  pub hour : ℕ
  pub minute : ℕ
  pub second : ℕ
  pub nanosecond : ℕ

-- time.Hour and time.Minute, in nanoseconds.
abbrev pub hour_length : ℕ
hour_length = 3600000000000

abbrev pub minute_length : ℕ
minute_length = 60000000000

abbrev pub scale_ℤ : ℤ → ℕ → ℤ
scale_ℤ z k = sub_ℕ (pos_part z * k) (neg_part z * k)

abbrev pub since_midnight : TimeOfDay → ℕ
since_midnight t =
    t.hour * hour_length + t.minute * minute_length + t.second * 1000000000 + t.nanosecond

-- The method `IsOpen` of a rule with this window.
unfoldable pub is_open : OpenWindow → TimeOfDay → Bool
is_open window t =
    let since_boundary =
      if ltb_ℤ (pos t.hour) window.day_boundary_hour
      then since_midnight t + 24 * hour_length
      else since_midnight t in
    leb_ℤ (scale_ℤ window.start_minute minute_length) (pos since_boundary)
    && ltb_ℤ (pos since_boundary) (scale_ℤ window.end_minute minute_length)

abbrev pub is_blank : String → Bool
is_blank s = str_eq (trim_space s) ""

-- An hour from 0 to 23 and a span of minutes within two days.
abbrev pub has_bad_hours : OpenWindow → Bool
has_bad_hours window =
    ltb_ℤ window.day_boundary_hour (pos 0)
    || ltb_ℤ (pos 23) window.day_boundary_hour
    || ltb_ℤ window.start_minute (pos 0)
    || leb_ℤ window.end_minute window.start_minute
    || ltb_ℤ (pos 2880) window.end_minute

module _ (F : Floats) where
  pub record Source : Type 0 where
    pub world_id : String
    pub area : String
    pub door_selector : ℤ
    pub layer : ℤ
    pub position : F.Float × F.Float × F.Float
    pub maximum_horizontal_distance : F.Float

  pub record Rule : Type 0 where
    pub id : String
    pub transition_id : String
    pub source : Source
    pub destination : Destination
    pub open_window : OpenWindow
    pub authorization_lifetime_ms : ℤ
    pub denial_message : String

  pub record Manifest : Type 0 where
    pub schema : String
    pub always_accessible_interior_world_ids : List String
    pub always_accessible_interior_policy : String
    pub rules : List Rule

  -- `controlled_world_ids` is the set as a test.
  pub record Catalog : Type 0 where
    pub by_transition_id : String → Option Rule
    pub controlled_world_ids : String → Bool
    pub always_accessible_world_ids : String → Option String

  abbrev not_finite : F.Float → Bool
  not_finite x = F.is_nan x || F.is_inf x

  unfoldable pub validate_rule : Rule → Option AccessError
  validate_rule rule =
      let source = rule.source in
      let destination = rule.destination in
      if is_blank rule.id || is_blank rule.transition_id
      then some missing_id
      else if str_eq source.world_id ""
          || str_eq source.area ""
          || str_eq destination.world_id ""
          || str_eq destination.area ""
      then some incomplete_route
      else if not_finite source.position.0
          || not_finite source.position.1
          || not_finite source.position.2
      then some bad_position
      else if F.le_float source.maximum_horizontal_distance F.zero_float
          || not_finite source.maximum_horizontal_distance
      then some bad_limit
      else if not (str_eq rule.open_window.kind "native-clock-window")
          || not (str_eq rule.open_window.boundary "start-inclusive, end-exclusive")
          || has_bad_hours rule.open_window
      then some bad_window
      else if leb_ℤ rule.authorization_lifetime_ms (pos 0) || is_blank rule.denial_message
      then some bad_policy
      else none

  unfoldable pub check_world : String → Option AccessError
  check_world world_id =
      if is_blank world_id || not (str_eq (trim_space world_id) world_id)
      then some invalid_world
      else none

  -- The destinations of the rules that are not always accessible.
  unfoldable pub controls : (String → Option String) → List Rule → String → Bool
  controls always [] world_id = false
  controls always (rule ∷ rules) world_id =
      (not (is_some (always rule.destination.world_id))
        && str_eq rule.destination.world_id world_id)
      || controls always rules world_id

  abbrev is_empty : {A : Type 0} → List A → Bool
  is_empty [] = true
  is_empty (x ∷ xs) = false

  -- The loop over the rules: a rule that stops it leaves no catalog, so the two maps it fills are
  -- built one after the other.
  unfoldable pub load_rules : Manifest → (String → Option String) → AccessError ⊎ Catalog
  load_rules manifest always =
      elim (load_keyed validate_rule duplicate_transition (λ (r : Rule). r.transition_id)
        manifest.rules (λ k. none)) [
          | inl e ↦ inl e
          | inr rules ↦ inr (record {
            by_transition_id = rules;
            controlled_world_ids = controls always manifest.rules;
            always_accessible_world_ids = always;
          })
        ]

  unfoldable pub load_interiors :
      Manifest → AccessError ⊎ (String → Option String) → AccessError ⊎ Catalog
  load_interiors manifest (inl e) = inl e
  load_interiors manifest (inr always) =
      if is_empty manifest.always_accessible_interior_world_ids
        || is_blank manifest.always_accessible_interior_policy
      then inl no_interiors
      else load_rules manifest always

  unfoldable pub load : Manifest → AccessError ⊎ Catalog
  load manifest =
      if not (str_eq manifest.schema "new-yokosuka-timed-transition-access-v1")
      then inl unsupported_schema
      else if is_empty manifest.rules
      then inl no_rules
      else load_interiors manifest (
          load_keyed check_world duplicate_interior (λ k. k)
            manifest.always_accessible_interior_world_ids (λ k. none))

  -- The methods of the catalog.
  unfoldable pub find_rule : Catalog → String → Option Rule
  find_rule catalog transition_id = catalog.by_transition_id transition_id

  unfoldable pub controls_destination : Catalog → String → Bool
  controls_destination catalog world_id = catalog.controlled_world_ids world_id

  unfoldable pub is_always_accessible : Catalog → String → Bool
  is_always_accessible catalog world_id = is_some (catalog.always_accessible_world_ids world_id)

  unfoldable pub is_rule_open : Catalog → Rule → TimeOfDay → Bool
  unfolding is_always_accessible
  is_rule_open catalog rule t =
      is_always_accessible catalog rule.destination.world_id || is_open rule.open_window t

  unfoldable pub within_range : Rule → F.Float → F.Float → Bool
  within_range rule x z =
      let dx = F.sub_float x rule.source.position.0 in
      let dz = F.sub_float z rule.source.position.2 in
      let maximum = rule.source.maximum_horizontal_distance in
      F.le_float (F.add_float (F.mul_float dx dx) (F.mul_float dz dz)) (F.mul_float maximum maximum)
