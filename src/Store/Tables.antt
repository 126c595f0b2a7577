-- ===== src/Store/Tables.antt =====
-- The tables of internal/store/migrations/001_baseline.sql that the store's transactions change.
-- Timestamps, generated ids and columns that no transaction here reads are left out.
use new_yokosuka_server.Base.{ℕ, Bool, String, Option, List, ◌==◌, if◌then◌else◌, str_eq}
use new_yokosuka_server.Base.Int.{ℤ}

-- `deleted` says that `deleted_at` is not null. The CHECK constraints make the numbers natural.
pub record Character : Type 0 where
  pub account_id : ℕ
  pub world_id : String
  pub yen : ℕ
  pub experience : ℕ
  pub current_hp : ℕ
  pub max_hp : ℕ
  pub deleted : Bool

pub record ItemDefinition : Type 0 where
  pub max_stack : ℕ
  pub usable : Bool
  pub effect_kind : Option String
  pub effect_value : ℤ

pub data EconomyKind : Type 0 where
  yen_credit yen_spend item_grant item_consume vending_purchase : EconomyKind

pub record EconomyEvent : Type 0 where
  pub character_id : ℕ
  pub event_key : Option String
  pub kind : EconomyKind
  pub item_key : Option String
  pub quantity_delta : ℤ
  pub yen_delta : ℤ
  pub reason : String

pub data ProgressionKind : Type 0 where
  experience_award damage heal : ProgressionKind

pub record ProgressionEvent : Type 0 where
  pub character_id : ℕ
  pub event_key : Option String
  pub kind : ProgressionKind
  pub experience_delta : ℕ
  pub hp_delta : ℤ
  pub reason : String

pub record PurchaseRow : Type 0 where
  pub machine_id : String
  pub drink_key : String
  pub price : ℕ
  pub winning_can : Bool

-- A table with a primary key is a function of the key; the event tables list the newest row first.
pub record Db : Type 0 where
  pub characters : ℕ → Option Character
  pub items : String → Option ItemDefinition
  pub inventory : ℕ → String → Option ℕ
  pub economy : List EconomyEvent
  pub progression : List ProgressionEvent
  pub purchases : ℕ → String → Option PurchaseRow

-- The write and the deletion of one inventory row.
abbrev pub put_item : (ℕ → String → Option ℕ) → ℕ → String → Option ℕ → ℕ → String → Option ℕ
put_item m c k v d j = if d == c then (if str_eq j k then v else m d j) else m d j
