-- ===== src/Store/Effects.antt =====
-- internal/store/script_events.go: the effects of a script event on the tables, which are applied
-- when its run ends, and the trace of a run. The times of the rows are left out, and so is
-- `completion_requested`, which says only that the status is `completed`.
pub mod Finish
pub mod Steps
pub mod Kept
pub mod Complete
pub mod Examples
use Prim.Native.Char.{code}
use Prim.Native.String.{◌++◌}
use new_yokosuka_server.Base.{
  ℕ, zero, suc, Bool, true, false, not, ◌&&◌, ◌||◌, String, Option, none, some, List, ltb, leb,
  ◌==◌, str_eq, is_some, if◌then◌else◌,
}
use new_yokosuka_server.Base.Int.{ℤ, pos, negsuc, neg_ℕ, ◌+ℤ◌}
use new_yokosuka_server.Base.Lists.{length, get_elem?}
use new_yokosuka_server.Base.Text.{trim_space, show_ℕ, is_key}
use new_yokosuka_server.Floats.{Floats}
use new_yokosuka_server.ScriptRuntime.{Event, Input}
use new_yokosuka_server.ScriptContent.{CompiledArgument}
use new_yokosuka_server.Store.Tables.{Db, yen_credit, yen_spend, item_grant, item_consume}
use new_yokosuka_server.Store.Transaction.{
  Tx, ok, err, ◌>>=◌, ◌>>◌, insufficient, invalid, sql_error,
}
use new_yokosuka_server.Store.Economy.{
  max_int32, max_int64, record_economy_event, set_yen, add_item, remove_item,
}
use new_yokosuka_server.Store.Runs.{Events}

pub record ScriptEffect : Type 0 where
  pub sequence : ℤ
  pub name : String
  pub arguments : List CompiledArgument

pub record EffectRow : Type 0 where
  pub run_id : ℕ
  pub effect : ScriptEffect

-- What the engine hands over encoded: an event of the runtime, or an input to it. Both are JSON
-- objects.
pub data Payload : Type 0 where
  event_payload : Event → Payload
  input_payload : Input → Payload

pub record TraceStep : Type 0 where
  pub ordinal : ℤ
  pub runtime_sequence : ℤ
  pub direction : String
  pub kind : String
  pub payload : Payload

pub record TraceRow : Type 0 where
  pub run_id : ℕ
  pub step : TraceStep

-- The names that the effects are told apart by.
pub data Durable : Type 0 where
  set_flag clear_flag set_progress increment_progress : Durable
  grant_yen spend_yen give_item take_item : Durable

unfoldable pub durable_of : String → Option Durable
durable_of name =
    if str_eq name "set_flag"
    then some set_flag
    else if str_eq name "clear_flag"
    then some clear_flag
    else if str_eq name "set_progress"
    then some set_progress
    else if str_eq name "increment_progress"
    then some increment_progress
    else if str_eq name "grant_yen"
    then some grant_yen
    else if str_eq name "spend_yen"
    then some spend_yen
    else if str_eq name "give_item"
    then some give_item
    else if str_eq name "remove_item"
    then some take_item
    else none

-- The function `argument`: a static argument of the expected type.
unfoldable pub static_argument : List CompiledArgument → ℕ → String → Option String
static_argument arguments index expected = elim (get_elem? arguments index) [
  | none ↦ none
  | some argument ↦
      if argument.is_static && str_eq argument.type_name expected then argument.value else none
]

abbrev show_ℤ : ℤ → String
show_ℤ (pos n) = show_ℕ n
show_ℤ (negsuc n) = "-" ++ show_ℕ (suc n)

unfoldable pub effect_event_key : ℕ → ℤ → String
effect_event_key run_id sequence = "script:" ++ (show_ℕ run_id ++ (":" ++ show_ℤ sequence))

-- UPDATE characters SET yen = yen + delta WHERE … AND yen + delta >= 0, with ErrNoRows read as
-- ErrInsufficient.
unfoldable pub move_yen : ℕ → ℤ → Tx Db ℕ
move_yen c delta db = elim (db.characters c) [
  | none ↦ err insufficient
  | some row ↦ if row.deleted then err insufficient else elim (pos row.yen +ℤ delta) [
    | negsuc n ↦ err insufficient
    | pos n ↦ if ltb max_int64 n then err sql_error else ok (n, set_yen db c row n)
  ]
]

-- An argument that must be there.
abbrev pub required : {S : Type 0} {A : Type 0} → Option A → Tx S A
required none s = err invalid
required (some a) s = ok (a, s)

abbrev pub require : {S : Type 0} → Bool → Tx S (Unit {0})
require b s = if b then ok (tt, s) else err invalid

module _ (F : Floats) where
  pub record ScriptTables : Type 0 where
    pub db : Db
    pub events : Events
    -- `character_story_flags` and `character_story_progress`, by character and key.
    pub flags : ℕ → String → Option Bool
    pub progress : ℕ → String → Option F.Float
    -- `script_event_effects` and `script_event_trace`, newest first.
    pub effects : List EffectRow
    pub trace : List TraceRow

  unfoldable pub on_db : {A : Type 0} → Tx Db A → Tx ScriptTables A
  on_db m s = elim (m s.db) [ ok (a, t) ↦ ok (a, record s { db = t }) | err e ↦ err e ]

  abbrev pub put_row : {V : Type 0} → (ℕ → String → V) → ℕ → String → V → ℕ → String → V
  put_row m c k v d j = if d == c then (if str_eq j k then v else m d j) else m d j

  -- A row of a story table: its key is checked by a CHECK constraint, and its character exists.
  abbrev pub may_store : ℕ → String → ScriptTables → Bool
  may_store c key s = is_key key && is_some (s.db.characters c)

  unfoldable pub write_flag : ℕ → String → Tx ScriptTables (Unit {0})
  write_flag c key s =
      if may_store c key s
      then ok (tt, record s { flags = put_row s.flags c key (some true) })
      else err sql_error

  unfoldable pub delete_flag : ℕ → String → Tx ScriptTables (Unit {0})
  delete_flag c key s = ok (tt, record s { flags = put_row s.flags c key none })

  unfoldable pub write_progress : ℕ → String → F.Float → Tx ScriptTables (Unit {0})
  write_progress c key value s =
      if may_store c key s && not (F.is_nan value || F.is_inf value)
      then ok (tt, record s { progress = put_row s.progress c key (some value) })
      else err sql_error

  -- INSERT … ON CONFLICT DO UPDATE SET value = value + EXCLUDED.value
  unfoldable pub add_progress : ℕ → String → F.Float → Tx ScriptTables (Unit {0})
  unfolding write_progress
  add_progress c key value s = elim (s.progress c key) [
    | none ↦ write_progress c key value s
    | some held ↦ write_progress c key (F.add_float held value) s
  ]

  abbrev pub is_finite : F.Float → Bool
  is_finite value = not (F.is_nan value || F.is_inf value)

  -- A finite number, of the text of an argument.
  abbrev pub finite_number : String → Option F.Float
  finite_number text = elim (F.parse_float text) [
    | none ↦ none
    | some value ↦ if is_finite value then some value else none
  ]

  -- float64(scriptcontent.YarnMaxSafeInteger), 2^53 - 1.
  abbrev pub max_safe : F.Float
  max_safe = F.of_int (pos 9007199254740991)

  abbrev pub min_safe : F.Float
  min_safe = F.of_int (neg_ℕ 9007199254740991)

  abbrev pub is_safe_integer : F.Float → Bool
  is_safe_integer value =
      F.eq_float (F.trunc value) value
      && not (F.lt_float max_safe value)
      && not (F.lt_float value min_safe)

  unfoldable pub integer_argument : List CompiledArgument → ℕ → Option ℤ
  integer_argument arguments index = elim (static_argument arguments index "number") [
    | none ↦ none
    | some text ↦ elim (F.parse_float text) [
      | none ↦ none
      | some value ↦
          if is_finite value && is_safe_integer value then some (F.to_int value) else none
    ]
  ]

  -- An integer argument from 1 up to a limit (of an int64, at most its maximum).
  unfoldable pub positive_argument : List CompiledArgument → ℕ → ℕ → Tx ScriptTables ℕ
  positive_argument arguments index limit s = elim (integer_argument arguments index) [
    | none ↦ err invalid
    | some (negsuc n) ↦ err invalid
    | some (pos n) ↦ if n == 0 || ltb limit n then err invalid else ok (n, s)
  ]

  unfoldable pub apply_yen : ℕ → ℕ → ScriptEffect → Bool → Tx ScriptTables (Unit {0})
  apply_yen c run_id effect spends = do
    amount ← positive_argument effect.arguments 0 max_int64
    reason ← required (static_argument effect.arguments 1 "string")
    require (not (str_eq (trim_space reason) ""))
    let delta = if spends then neg_ℕ amount else pos amount
    balance ← on_db (move_yen c delta)
    on_db (
        record_economy_event c (effect_event_key run_id effect.sequence)
          (if spends then yen_spend else yen_credit) "" (pos 0) delta reason)

  unfoldable pub apply_item_effect :
      ℕ → ℕ → ScriptEffect → Bool → String → ℕ → Tx ScriptTables (Unit {0})
  apply_item_effect c run_id effect gives item quantity = do
    held ← on_db (if gives then add_item c item quantity else remove_item c item quantity)
    on_db (
        record_economy_event c (effect_event_key run_id effect.sequence)
          (if gives then item_grant else item_consume) item
          (if gives then pos quantity else neg_ℕ quantity) (pos 0) "script event")

  unfoldable pub apply_item : ℕ → ℕ → ScriptEffect → Bool → Tx ScriptTables (Unit {0})
  unfolding apply_item_effect
  apply_item c run_id effect gives = do
    item ← required (static_argument effect.arguments 0 "string")
    quantity ← positive_argument effect.arguments 1 max_int32
    apply_item_effect c run_id effect gives item quantity

  unfoldable pub apply_flag : ℕ → ScriptEffect → Bool → Tx ScriptTables (Unit {0})
  apply_flag c effect sets = do
    key ← required (static_argument effect.arguments 0 "string")
    if sets then write_flag c key else delete_flag c key

  unfoldable pub apply_progress : ℕ → ScriptEffect → Bool → Tx ScriptTables (Unit {0})
  apply_progress c effect adds = do
    key ← required (static_argument effect.arguments 0 "string")
    text ← required (static_argument effect.arguments 1 "number")
    value ← required (finite_number text)
    require (not (adds && F.le_float value F.zero_float))
    if adds then add_progress c key value else write_progress c key value

  -- The number of arguments is checked first.
  unfoldable pub counted :
      ScriptEffect → ℕ → Tx ScriptTables (Unit {0}) → Tx ScriptTables (Unit {0})
  counted effect n m s = if length effect.arguments == n then m s else err invalid

  unfoldable pub apply_durable : ℕ → ℕ → ScriptEffect → Durable → Tx ScriptTables (Unit {0})
  apply_durable c run_id effect set_flag = counted effect 1 (apply_flag c effect true)
  apply_durable c run_id effect clear_flag = counted effect 1 (apply_flag c effect false)
  apply_durable c run_id effect set_progress = counted effect 2 (apply_progress c effect false)
  apply_durable c run_id effect increment_progress = counted effect 2 (apply_progress c effect true)
  apply_durable c run_id effect grant_yen = counted effect 2 (apply_yen c run_id effect false)
  apply_durable c run_id effect spend_yen = counted effect 2 (apply_yen c run_id effect true)
  apply_durable c run_id effect give_item = counted effect 2 (apply_item c run_id effect true)
  apply_durable c run_id effect take_item = counted effect 2 (apply_item c run_id effect false)

  unfoldable pub apply_script_effect : ℕ → ℕ → ScriptEffect → Tx ScriptTables (Unit {0})
  apply_script_effect c run_id effect s = elim (durable_of effect.name) [
    | none ↦ err invalid
    | some command ↦ apply_durable c run_id effect command s
  ]
