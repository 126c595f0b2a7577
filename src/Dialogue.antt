-- ===== src/Dialogue.antt =====
-- internal/dialoguestate/snapshot.go: the snapshot of the dialogue interpreters and its validation.
-- A byte is a number below 256, a nil map is `none`, and the texts are valid UTF-8, as JSON gives
-- them. The errors of `Validate` differ in their texts only.
use new_yokosuka_server.Base.{
  ℕ, zero, suc, Bool, true, false, ◌&&◌, String, Option, none, some, List, [], ◌∷◌, ◌++◌, leb, ◌==◌,
  str_eq,
}
use new_yokosuka_server.Base.Int.{ℤ, pos, ltb_ℤ, leb_ℤ}
use new_yokosuka_server.Base.Lists.{length}
use Prim.Native.Char.{code}

-- The constant `Schema`
abbrev pub schema_v1 : String
schema_v1 = "new-yokosuka-native-dialogue-snapshot-v1"

pub record StoryBanks : Type 0 where
  pub bank2 : List ℕ
  pub bank3 : List ℕ
  pub bank4 : List ℕ

pub record ProgressIndices : Type 0 where
  pub dynamic_cursor : ℤ
  pub dynamic_identities : List (Option String)

pub record GameState : Type 0 where
  pub actor_bytes : Option (List (String × ℕ))
  pub script_bits : List ℕ

pub record Snapshot : Type 0 where
  pub schema : String
  pub revision : ℕ
  pub banks : StoryBanks
  pub progress : List ℕ
  pub progress_indices : ProgressIndices
  pub history : List (Option ℤ)
  pub game_state : GameState

abbrev pub repeat {ℓ} : {A : Type ℓ} → ℕ → List A → List A
repeat zero xs = []
repeat (suc n) xs = xs ++ repeat n xs

-- The last four bytes are math.Float32bits(9), the lowest first.
abbrev pub progress_entry : List ℕ
progress_entry = repeat 8 (0 ∷ []) ++ 0 ∷ 0 ∷ 0x10 ∷ 0x41 ∷ []

unfoldable pub default : Snapshot
default = record {
  schema = schema_v1;
  revision = 0;
  banks = record {
    bank2 = 0xEC ∷ repeat 127 (0 ∷ []);
    bank3 = 0xB5 ∷ 0x66 ∷ 0 ∷ 0 ∷ 0xDE ∷ 0x03 ∷ 0 ∷ 0 ∷ [];
    bank4 = repeat 32 (0 ∷ []);
  };
  progress = repeat 325 progress_entry;
  progress_indices = record { dynamic_cursor = pos 23; dynamic_identities = repeat 24 (none ∷ []) };
  history = repeat 3 (none ∷ []);
  game_state = record { actor_bytes = some []; script_bits = repeat 32 (0 ∷ []) };
}

-- A text of so many characters, each of them below 256.
abbrev pub is_bytes : ℕ → String → Bool
is_bytes zero String.[] = true
is_bytes (suc n) String.[] = false
is_bytes zero (String.◌∷◌ c s) = false
is_bytes (suc n) (String.◌∷◌ c s) = leb (code c) 0xFF && is_bytes n s

unfoldable pub is_identity : String → Bool
is_identity s = is_bytes 4 s

abbrev pub are_identities : List (Option String) → Bool
are_identities [] = true
are_identities (none ∷ ids) = are_identities ids
are_identities (some s ∷ ids) = is_identity s && are_identities ids

abbrev pub is_history : List (Option ℤ) → Bool
is_history [] = true
is_history (none ∷ values) = is_history values
is_history (some n ∷ values) = leb_ℤ (pos 0) n && leb_ℤ n (pos 0xFF) && is_history values

abbrev pub are_actors : List (String × ℕ) → Bool
are_actors [] = true
are_actors ((s, b) ∷ rows) = is_identity s && are_actors rows

abbrev pub is_actor_state : Option (List (String × ℕ)) → Bool
is_actor_state none = false
is_actor_state (some rows) = leb (length rows) 512 && are_actors rows

abbrev pub has_lengths : Snapshot → Bool
has_lengths snapshot =
    length snapshot.banks.bank2 == 128
    && length snapshot.banks.bank3 == 8
    && length snapshot.banks.bank4 == 32
    && length snapshot.progress == 3900
    && length snapshot.game_state.script_bits == 32
    && length snapshot.progress_indices.dynamic_identities == 24
    && length snapshot.history == 3

-- `Validate` returns no error.
unfoldable pub is_valid : Snapshot → Bool
is_valid snapshot =
    str_eq snapshot.schema schema_v1
    && has_lengths snapshot
    && leb_ℤ (pos 0) snapshot.progress_indices.dynamic_cursor
    && ltb_ℤ snapshot.progress_indices.dynamic_cursor (pos 24)
    && are_identities snapshot.progress_indices.dynamic_identities
    && is_history snapshot.history
    && is_actor_state snapshot.game_state.actor_bytes
