-- ===== src/Store/Progression.antt =====
-- internal/store/progression.go: experience, damage, healing and the use of a healing item.
use Prim.Native.String.{◌++◌ as append_text}
use new_yokosuka_server.Base.{
  ℕ, ◌+◌, min, max, Bool, not, ◌&&◌, ◌||◌, String, none, some, List, [], ◌∷◌, ltb, leb, ◌==◌,
  if◌then◌else◌, str_eq, is_some, false,
}
use new_yokosuka_server.Base.Int.{ℤ, pos, ◌+ℤ◌, sub_ℕ, neg_ℕ, pos_part, ltb_ℤ}
use new_yokosuka_server.Base.Maps.{put}
use new_yokosuka_server.Game.{level_for_experience}
use new_yokosuka_server.Store.Tables.{
  Db, Character, ProgressionEvent, ProgressionKind, experience_award, damage, heal, item_consume,
}
use new_yokosuka_server.Store.Transaction.{
  Tx, Result, ok, err, ◌>>=◌, ◌>>◌, return, transact, require_positive, insufficient,
  duplicate_event, no_rows, sql_error, not_found, hp_full,
}
use new_yokosuka_server.Store.Economy.{
  max_int64, null_if_empty, has_key, remove_item, record_economy_event,
}

pub record Progression : Type 0 where
  pub experience : ℕ
  pub level : ℕ
  pub current_hp : ℕ
  pub max_hp : ℕ

unfoldable pub progression_for : ℕ → ℕ → ℕ → Progression
progression_for experience current_hp max_hp = record {
  experience = experience;
  level = level_for_experience (pos experience);
  current_hp = min (max 0 current_hp) max_hp;
  max_hp = max_hp;
}

-- The unique index on (character_id, event_key) where the key is not null.
pub has_progression_event : ℕ → String → List ProgressionEvent → Bool
has_progression_event c k [] = false
has_progression_event c k (e ∷ es) =
    (e.character_id == c && has_key k e.event_key) || has_progression_event c k es

unfoldable pub record_progression_event :
    ℕ → String → ProgressionKind → ℕ → ℤ → String → Tx Db (Unit {0})
record_progression_event c key kind experience_delta hp_delta reason db =
    if not (str_eq key "") && has_progression_event c key db.progression
    then err duplicate_event
    else if not (is_some (db.characters c))
    then err sql_error
    else ok (
      tt,
      record db {
        progression =
            record {
              character_id = c;
              event_key = null_if_empty key;
              kind = kind;
              experience_delta = experience_delta;
              hp_delta = hp_delta;
              reason = reason;
            }
            ∷ db.progression;
      },
    )

-- SELECT … FROM characters WHERE id = c AND deleted_at IS NULL, with the error for no row.
unfoldable pub live_character : ℕ → Tx Db Character
live_character c db = elim (db.characters c) [
  | none ↦ err no_rows
  | some row ↦ if row.deleted then err no_rows else ok (row, db)
]

unfoldable pub set_character : ℕ → Character → Tx Db (Unit {0})
set_character c row db = ok (tt, record db { characters = put db.characters c (some row) })

unfoldable pub set_experience : ℕ → Character → ℕ → Tx Db (Unit {0})
unfolding set_character
set_experience c row n db =
    if ltb max_int64 n then err sql_error else set_character c (record row { experience = n }) db

unfoldable pub award_experience_tx : ℕ → ℤ → String → String → Tx Db Progression
award_experience_tx c amount event_key reason = do
  n ← require_positive amount
  record_progression_event c event_key experience_award n (pos 0) reason
  row ← live_character c
  set_experience c row (row.experience + n)
  return (progression_for (row.experience + n) row.current_hp row.max_hp)

unfoldable pub award_experience : ℕ → ℤ → String → String → Db → Result Progression × Db
unfolding award_experience_tx
award_experience c amount event_key reason =
    transact (award_experience_tx c amount event_key reason)

-- A sum of two numbers of 64 bits, of which one is not negative, wraps above the largest.
abbrev pub wrap_int64 : ℤ → ℤ
wrap_int64 z = if ltb_ℤ (pos max_int64) z then z +ℤ neg_ℕ 18446744073709551616 else z

-- min(maxHP, max(0, currentHP + delta))
unfoldable pub clamp_hp : ℕ → ℕ → ℤ → ℕ
unfolding ◌+ℤ◌
clamp_hp max_hp current_hp delta = min max_hp (pos_part (wrap_int64 (pos current_hp +ℤ delta)))

unfoldable pub or_not_found : Tx Db Character → Tx Db Character
or_not_found m db = elim (m db) [ ok r ↦ ok r | err e ↦ err not_found ]

unfoldable pub change_hp_in_tx : ℕ → ℤ → ProgressionKind → String → String → Tx Db Progression
change_hp_in_tx c delta kind event_key reason = do
  row ← or_not_found (live_character c)
  let hp = clamp_hp row.max_hp row.current_hp delta
  set_character c (record row { current_hp = hp })
  record_progression_event c event_key kind 0 (sub_ℕ hp row.current_hp) reason
  return (progression_for row.experience hp row.max_hp)

unfoldable pub apply_damage : ℕ → ℤ → String → String → Db → Result Progression × Db
unfolding change_hp_in_tx
apply_damage c amount event_key reason =
    transact do n ← require_positive amount; change_hp_in_tx c (neg_ℕ n) damage event_key reason

-- The method `Heal`.
unfoldable pub heal_character : ℕ → ℤ → String → String → Db → Result Progression × Db
unfolding change_hp_in_tx
heal_character c amount event_key reason =
    transact do n ← require_positive amount; change_hp_in_tx c (pos n) heal event_key reason

-- The join of the held item with its definition, where the item is usable and heals.
unfoldable pub healing_item : ℕ → String → Tx Db (ℤ × ℕ)
healing_item c item db = elim (db.inventory c item) [
  | none ↦ err insufficient
  | some held ↦ elim (db.items item) [
    | none ↦ err insufficient
    | some def ↦
        if def.usable && has_key "heal_hp" def.effect_kind
        then ok ((def.effect_value, held), db)
        else err insufficient
  ]
]

unfoldable pub require_not_full : Character → Tx Db (Unit {0})
require_not_full row db = if leb row.max_hp row.current_hp then err hp_full else ok (tt, db)

unfoldable pub use_healing_item_tx : ℕ → String → Tx Db (Progression × ℕ)
use_healing_item_tx c item = do
  (amount, quantity) ← healing_item c item
  row ← live_character c
  require_not_full row
  left ← remove_item c item 1
  record_economy_event c "" item_consume item (neg_ℕ 1) (pos 0) "heal_hp"
  progression ← change_hp_in_tx c amount heal "" (append_text "item:" item)
  return (progression, left)

unfoldable pub use_healing_item : ℕ → String → Db → Result (Progression × ℕ) × Db
unfolding use_healing_item_tx
use_healing_item c item = transact (use_healing_item_tx c item)
