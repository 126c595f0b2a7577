-- ===== src/LogBuffer.antt =====
-- internal/logbuffer/buffer.go: the last lines of a log, over its bytes.
pub mod Ring
pub mod Examples
use new_yokosuka_server.Base.{
  ℕ, zero, suc, ◌-◌, Bool, List, [], ◌∷◌, ◌++◌, ltb, ◌==◌, if◌then◌else◌,
}
use new_yokosuka_server.Base.Int.{ℤ, pos, pos_part, ltb_ℤ}
use new_yokosuka_server.Base.Lists.{length}

abbrev pub max_pending_bytes : ℕ
max_pending_bytes = 65536

-- `max` is the number of lines that are held.
pub record Buffer : Type 0 where
  pub max : ℕ
  pub lines : List (List ℕ)
  pub pending : List ℕ

unfoldable pub new_buffer : ℤ → Buffer
new_buffer max_lines = record {
  max = if ltb_ℤ max_lines (pos 1) then 1 else pos_part max_lines;
  lines = [];
  pending = [];
}

abbrev pub drop {ℓ} : {A : Type ℓ} → ℕ → List A → List A
drop zero xs = xs
drop (suc n) [] = []
drop (suc n) (x ∷ xs) = drop n xs

-- The slice that keeps the last elements.
abbrev pub last_of {ℓ} : {A : Type ℓ} → ℕ → List A → List A
last_of n xs = drop (length xs - n) xs

-- A full buffer moves its lines down by one.
unfoldable pub append_locked : List ℕ → Buffer → Buffer
append_locked line b = record b {
  lines = (if length b.lines == b.max then drop 1 b.lines else b.lines) ++ line ∷ [];
}

unfoldable pub append_all : List (List ℕ) → Buffer → Buffer
append_all [] b = b
append_all (line ∷ lines) b = append_all lines (append_locked line b)

abbrev pub add_byte : ℕ → List (List ℕ) × List ℕ → List (List ℕ) × List ℕ
add_byte c ([], rest) = ([], c ∷ rest)
add_byte c (line ∷ lines, rest) = ((c ∷ line) ∷ lines, rest)

-- strings.Split at each line feed: the complete lines, and the part after the last one.
unfoldable pub split_lines : List ℕ → List (List ℕ) × List ℕ
split_lines [] = ([], [])
split_lines (c ∷ bytes) =
    let rest = split_lines bytes in if c == 10 then ([] ∷ rest.0, rest.1) else add_byte c rest

-- strings.TrimSuffix of one carriage return.
unfoldable pub trim_return : List ℕ → List ℕ
trim_return [] = []
trim_return (c ∷ []) = if c == 13 then [] else c ∷ []
trim_return (c ∷ d ∷ bytes) = c ∷ trim_return (d ∷ bytes)

abbrev pub trim_all : List (List ℕ) → List (List ℕ)
trim_all [] = []
trim_all (line ∷ lines) = trim_return line ∷ trim_all lines

-- The slice of what is pending holds its last bytes.
unfoldable pub write : List ℕ → Buffer → ℕ × Buffer
write bytes b =
    let parts = split_lines (b.pending ++ bytes) in
    (
      length bytes,
      record (append_all (trim_all parts.0) b) {
        pending =
            if ltb max_pending_bytes (length parts.1)
            then last_of max_pending_bytes parts.1
            else parts.1;
      },
    )
