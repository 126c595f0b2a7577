-- ===== src/ScriptEvent/Query.antt =====
-- internal/scriptevent/state.go: the answers to the queries of a script.
use new_yokosuka_server.Base.{
  ◌+◌, ◌*◌, Bool, ◌&&◌, ◌||◌, String, Option, none, some, List, str_eq, if◌then◌else◌,
}
use new_yokosuka_server.Base.Int.{ℤ, pos, leb_ℤ, ltb_ℤ, pos_part, neg_part, sub_ℕ}
use new_yokosuka_server.Floats.{Floats}
use new_yokosuka_server.ScriptContent.{CompiledArgument}
use new_yokosuka_server.ScriptRuntime.{Event, Value}
use new_yokosuka_server.Store.Transaction.{Result, ok, err, invalid}
use new_yokosuka_server.ScriptEvent.State.{
  EventState, CalendarDate, string_argument, event_integer, bool_value, number_value, get_bool,
  get_float, get_int, is_month_day, is_valid_date,
}

-- The names of the queries.
pub data Query : Type 0 where
  flag_set progress_value has_item yen actor_present actor_state in_scene game_hour : Query
  game_date_on_or_after random_integer actor_in_bounds object_exists activity_result : Query

unfoldable pub query_of : String → Option Query
query_of name =
    if str_eq name "flag_set"
    then some flag_set
    else if str_eq name "progress_value"
    then some progress_value
    else if str_eq name "has_item"
    then some has_item
    else if str_eq name "yen"
    then some yen
    else if str_eq name "actor_present"
    then some actor_present
    else if str_eq name "actor_state"
    then some actor_state
    else if str_eq name "in_scene"
    then some in_scene
    else if str_eq name "game_hour"
    then some game_hour
    else if str_eq name "game_date_on_or_after"
    then some game_date_on_or_after
    else if str_eq name "random_integer"
    then some random_integer
    else if str_eq name "actor_in_bounds"
    then some actor_in_bounds
    else if str_eq name "object_exists"
    then some object_exists
    else if str_eq name "activity_result"
    then some activity_result
    else none

abbrev pub ask : {A B : Type 0} → Option A → (A → Result B) → Result B
ask none f = err invalid
ask (some a) f = f a

-- month * 100 + day
abbrev pub month_day : ℤ → ℤ → ℤ
month_day month day =
    sub_ℕ (pos_part month * 100 + pos_part day) (neg_part month * 100 + neg_part day)

-- The value of a query on the date: whether the date of the game is as late in the year.
unfoldable pub is_on_or_after : Option CalendarDate → ℤ → ℤ → Result Bool
is_on_or_after none month day = err invalid
is_on_or_after (some date) month day =
    if is_month_day month day && is_valid_date date
    then ok (leb_ℤ (month_day month day) (month_day date.month date.day))
    else err invalid

-- `random` is the authoritative source, which may be missing and may fail.
unfoldable pub random_between : Option (ℤ → ℤ → Option ℤ) → ℤ → ℤ → Result ℤ
random_between random low high =
    if ltb_ℤ high low
    then err invalid
    else ask random λ draw.
      ask (draw low high)
        λ value. if ltb_ℤ value low || ltb_ℤ high value then err invalid else ok value

module _ (F : Floats) where
  abbrev pub answer_bool : Result Bool → Result Value
  answer_bool (err e) = err e
  answer_bool (ok b) = ok (bool_value b)

  abbrev pub answer_int : Result ℤ → Result Value
  answer_int (err e) = err e
  answer_int (ok z) = ok (number_value F (F.of_int z))

  unfoldable pub has_quantity : EventState F → String → Option ℤ → Result Value
  has_quantity state item none = err invalid
  has_quantity state item (some quantity) =
      if leb_ℤ quantity (pos 0)
      then err invalid
      else ok (bool_value (leb_ℤ quantity (get_int (state.saved.inventory item))))

  unfoldable pub resolve :
      Option (ℤ → ℤ → Option ℤ) → EventState F → List CompiledArgument → Query → Result Value
  resolve random state arguments flag_set =
      ask (string_argument arguments 0) λ key. ok (bool_value (get_bool (state.saved.flags key)))
  resolve random state arguments progress_value =
      ask (string_argument arguments 0)
        λ key. ok (number_value F (get_float F (state.saved.progress key)))
  resolve random state arguments has_item =
      ask (string_argument arguments 0)
        λ item. has_quantity state item (event_integer F arguments 1)
  resolve random state arguments yen = ok (number_value F (F.of_int (pos state.saved.yen)))
  resolve random state arguments actor_present =
      ask (string_argument arguments 0)
        λ actor. ask (state.facts.actor_presence actor) λ b. ok (bool_value b)
  resolve random state arguments actor_state = ask (string_argument arguments 0) λ actor.
      ask (string_argument arguments 1)
        λ key. ask (state.facts.actor_states actor key) λ value. ok (number_value F value)
  resolve random state arguments in_scene =
      ask (string_argument arguments 0) λ scene. ok (bool_value (str_eq scene state.saved.scene))
  resolve random state arguments game_hour =
      ask state.facts.game_hour λ hour. ok (number_value F hour)
  resolve random state arguments game_date_on_or_after = ask (event_integer F arguments 0) λ month.
      ask (event_integer F arguments 1)
        λ day. answer_bool (is_on_or_after state.facts.game_date month day)
  resolve random state arguments random_integer =
      ask (event_integer F arguments 0)
        λ low. ask (event_integer F arguments 1) λ high. answer_int (random_between random low high)
  resolve random state arguments actor_in_bounds = ask (string_argument arguments 0) λ actor.
      ask (string_argument arguments 1)
        λ bounds. ask (state.facts.actor_bounds actor bounds) λ b. ok (bool_value b)
  resolve random state arguments object_exists =
      ask (string_argument arguments 0)
        λ object. ask (state.facts.object_existence object) λ b. ok (bool_value b)
  resolve random state arguments activity_result = ask (string_argument arguments 0) λ activity.
      ask (state.facts.activity_results activity)
        λ s. ok (record { type_name = "string"; value = s })

  -- The method `resolveQuery`; every refusal is an error of its own text.
  unfoldable pub resolve_query : Option (ℤ → ℤ → Option ℤ) → EventState F → Event → Result Value
  unfolding resolve
  resolve_query random state event =
      ask (query_of event.name) λ query. resolve random state event.arguments query
