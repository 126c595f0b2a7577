-- ===== src/ScriptEvent/State.antt =====
-- internal/scriptevent/state.go and calendar.go: the state of an event, with the effects that it has
-- staged, and the answers to the queries of its script.
use mathlib.Core.List.{◌++◌}
use new_yokosuka_server.Base.{
  ℕ, suc, ◌+◌, ◌-◌, ◌%◌, Bool, true, false, not, ◌&&◌, ◌||◌, String, Option, none, some, List, [],
  ◌∷◌, ltb, leb, ◌==◌, str_eq, if◌then◌else◌,
}
use new_yokosuka_server.Base.Int.{ℤ, pos, negsuc, sub_ℕ, ltb_ℤ, leb_ℤ, pos_part}
use new_yokosuka_server.Base.Lists.{get_elem?}
use new_yokosuka_server.Base.Maps.{put_text}
use new_yokosuka_server.Floats.{Floats}
use new_yokosuka_server.ScriptContent.{CompiledArgument}
use new_yokosuka_server.ScriptRuntime.{Event, Value}
use new_yokosuka_server.Store.Transaction.{Tx, Result, ok, err, ◌>>=◌, insufficient, invalid}
use new_yokosuka_server.Store.Economy.{max_int32, max_int64}
use new_yokosuka_server.Store.Effects.{
  ScriptEffect, Durable, set_flag, clear_flag, set_progress, increment_progress, grant_yen,
  spend_yen, give_item, take_item, durable_of, is_finite, is_safe_integer, finite_number, required,
}
use new_yokosuka_server.Store.Effects.Finish.{CharacterScriptState}

pub record CalendarDate : Type 0 where
  pub year : ℤ
  pub month : ℤ
  pub day : ℤ

abbrev pub is_leap : ℕ → Bool
is_leap year = year % 4 == 0 && (not (year % 100 == 0) || year % 400 == 0)

abbrev pub days_in : ℕ → ℕ → ℕ
days_in year month =
    if month == 2
    then (if is_leap year then 29 else 28)
    else if month == 4 || month == 6 || month == 9 || month == 11
    then 30
    else 31

-- time.Date moves a month or a day out of range into another month, so that the date it returns has
-- another month or another day.
unfoldable pub is_date : ℕ → ℤ → ℤ → Bool
is_date year month day =
    leb_ℤ (pos 1) month
    && leb_ℤ month (pos 12)
    && leb_ℤ (pos 1) day
    && leb_ℤ day (pos (days_in year (pos_part month)))

-- The method `Validate` of a date.
unfoldable pub is_valid_date : CalendarDate → Bool
is_valid_date date =
    leb_ℤ (pos 1) date.year
    && leb_ℤ date.year (pos 9999)
    && is_date (pos_part date.year) date.month date.day

-- The year 2000 permits February 29.
unfoldable pub is_month_day : ℤ → ℤ → Bool
is_month_day month day = is_date 2000 month day

-- A text argument, which need not be static.
unfoldable pub string_argument : List CompiledArgument → ℕ → Option String
string_argument arguments index = elim (get_elem? arguments index) [
  | none ↦ none
  | some argument ↦ if str_eq argument.type_name "string" then argument.value else none
]

abbrev pub effect_of : Event → ScriptEffect
effect_of event = record {
  sequence = event.sequence;
  name = event.name;
  arguments = event.arguments;
}

abbrev pub get_bool : Option Bool → Bool
get_bool none = false
get_bool (some b) = b

abbrev pub get_int : Option ℤ → ℤ
get_int none = pos 0
get_int (some z) = z

-- int64 addition of a number that is not negative, which wraps around.
abbrev pub wrap_add : ℤ → ℕ → ℤ
wrap_add (pos a) n =
    if leb (a + n) max_int64 then pos (a + n) else sub_ℕ (a + n) 18446744073709551616
wrap_add (negsuc a) n = sub_ℕ n (suc a)

-- int64 subtraction from a number that is at least as large.
abbrev pub minus_ℤ : ℤ → ℕ → ℤ
minus_ℤ z n = sub_ℕ (pos_part z) n

abbrev pub bool_value : Bool → Value
bool_value b = record { type_name = "bool"; value = if b then "true" else "false" }

module _ (F : Floats) where
  -- A map of a map is a function of both keys.
  pub record WorldFacts : Type 0 where
    pub game_hour : Option F.Float
    pub game_date : Option CalendarDate
    pub actor_presence : String → Option Bool
    pub actor_states : String → String → Option F.Float
    pub actor_bounds : String → String → Option Bool
    pub object_existence : String → Option Bool
    pub activity_results : String → Option String

  pub record EventState : Type 0 where
    pub saved : CharacterScriptState F
    pub facts : WorldFacts
    pub effects : List ScriptEffect

  abbrev pub number_value : F.Float → Value
  number_value value = record { type_name = "number"; value = F.format_float value }

  abbrev pub get_float : Option F.Float → F.Float
  get_float none = F.zero_float
  get_float (some x) = x

  unfoldable pub event_number : List CompiledArgument → ℕ → Option F.Float
  event_number arguments index = elim (get_elem? arguments index) [
    | none ↦ none
    | some argument ↦
        if str_eq argument.type_name "number"
        then elim argument.value [ none ↦ none | some text ↦ finite_number F text ]
        else none
  ]

  unfoldable pub event_integer : List CompiledArgument → ℕ → Option ℤ
  event_integer arguments index = elim (event_number arguments index) [
    | none ↦ none
    | some value ↦ if is_safe_integer F value then some (F.to_int value) else none
  ]

  abbrev pub StageTx : Type 0 → Type 0
  StageTx A = Tx (CharacterScriptState F) A

  unfoldable pub positive_integer : List CompiledArgument → ℕ → ℕ → StageTx ℕ
  positive_integer arguments index limit s = elim (event_integer arguments index) [
    | none ↦ err invalid
    | some (negsuc n) ↦ err invalid
    | some (pos n) ↦ if n == 0 || ltb limit n then err invalid else ok (n, s)
  ]

  unfoldable pub stage_flag : List CompiledArgument → Bool → StageTx (Unit {0})
  stage_flag arguments sets s = elim (string_argument arguments 0) [
    | none ↦ err invalid
    | some key ↦
        ok (tt, record s { flags = put_text s.flags key (if sets then some true else none) })
  ]

  unfoldable pub put_progress : String → F.Float → StageTx (Unit {0})
  put_progress key value s = ok (tt, record s { progress = put_text s.progress key (some value) })

  -- A sum that is not finite is refused.
  unfoldable pub add_to_progress : String → F.Float → StageTx (Unit {0})
  unfolding put_progress
  add_to_progress key value s =
      let sum = F.add_float value (get_float (s.progress key)) in
      if F.le_float value F.zero_float || not (is_finite F sum)
      then err invalid
      else put_progress key sum s

  unfoldable pub stage_progress : List CompiledArgument → Bool → StageTx (Unit {0})
  unfolding put_progress add_to_progress
  stage_progress arguments adds = do
    key ← required (string_argument arguments 0)
    value ← required (event_number arguments 1)
    if adds then add_to_progress key value else put_progress key value

  unfoldable pub stage_spend : ℕ → StageTx (Unit {0})
  stage_spend amount s =
      if ltb s.yen amount then err insufficient else ok (tt, record s { yen = s.yen - amount })

  unfoldable pub stage_grant : ℕ → StageTx (Unit {0})
  stage_grant amount s =
      if ltb (max_int64 - s.yen) amount
      then err invalid
      else ok (tt, record s { yen = s.yen + amount })

  -- An amount is an int64, and so at most its maximum.
  unfoldable pub stage_yen : List CompiledArgument → Bool → StageTx (Unit {0})
  unfolding stage_spend stage_grant
  stage_yen arguments spends = do
    amount ← positive_integer arguments 0 max_int64
    if spends then stage_spend amount else stage_grant amount

  unfoldable pub stage_take : String → ℕ → StageTx (Unit {0})
  stage_take item quantity s =
      let held = get_int (s.inventory item) in
      if ltb_ℤ held (pos quantity)
      then err insufficient
      else ok
          (tt, record s { inventory = put_text s.inventory item (some (minus_ℤ held quantity)) })

  unfoldable pub stage_give : String → ℕ → StageTx (Unit {0})
  stage_give item quantity s =
      let held = get_int (s.inventory item) in
      ok (tt, record s { inventory = put_text s.inventory item (some (wrap_add held quantity)) })

  unfoldable pub stage_item : List CompiledArgument → Bool → StageTx (Unit {0})
  unfolding stage_take stage_give
  stage_item arguments gives = do
    item ← required (string_argument arguments 0)
    quantity ← positive_integer arguments 1 max_int32
    if gives then stage_give item quantity else stage_take item quantity

  unfoldable pub stage_durable : List CompiledArgument → Durable → StageTx (Unit {0})
  stage_durable arguments set_flag = stage_flag arguments true
  stage_durable arguments clear_flag = stage_flag arguments false
  stage_durable arguments set_progress = stage_progress arguments false
  stage_durable arguments increment_progress = stage_progress arguments true
  stage_durable arguments grant_yen = stage_yen arguments false
  stage_durable arguments spend_yen = stage_yen arguments true
  stage_durable arguments give_item = stage_item arguments true
  stage_durable arguments take_item = stage_item arguments false

  unfoldable pub stage_saved : Event → StageTx (Unit {0})
  stage_saved event s = elim (durable_of event.name) [
    | none ↦ err invalid
    | some command ↦ stage_durable event.arguments command s
  ]

  -- The method `stage`, which returns the new state or an error.
  unfoldable pub stage : Event → EventState → Result EventState
  unfolding stage_saved
  stage event state = elim (stage_saved event state.saved) [
    | err e ↦ err e
    | ok (_, saved) ↦
        ok (record state { saved = saved; effects = state.effects ++ (effect_of event ∷ []) })
  ]
