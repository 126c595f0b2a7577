-- ===== src/Base/Text.antt =====
-- The text functions of Go's `strings` and `fmt` that the program uses, over Unicode scalar values.
use Prim.Native.Char.{Char, code}
use Prim.Native.Nat.{ℕ, zero, suc, ◌/◌, ◌%◌}
use Prim.Native.String.{String, ◌++◌}
use mathlib.Core.Bool.{Bool, true, false, ◌&&◌, ◌||◌}
use mathlib.Core.Path.{◌≡◌, refl, sym, ap, ◌∙◌}
use mathlib.Core.Logic.{inl, inr}
use new_yokosuka_server.Base.Tests.{leb, ◌==◌, if◌then◌else◌, if_true, if_false, Bool-cases}

-- unicode.IsSpace
pub is_space : ℕ → Bool
is_space c =
    (leb 9 c && leb c 13)
    || c == 32
    || c == 0x85
    || c == 0xA0
    || c == 0x1680
    || (leb 0x2000 c && leb c 0x200A)
    || c == 0x2028
    || c == 0x2029
    || c == 0x202F
    || c == 0x205F
    || c == 0x3000

pub trim_left : String → String
trim_left String.[] = String.[]
trim_left (String.◌∷◌ c s) =
    let rest = trim_left s in if is_space (code c) then rest else String.◌∷◌ c s

abbrev is_empty : String → Bool
is_empty String.[] = true
is_empty (String.◌∷◌ c s) = false

pub trim_right : String → String
trim_right String.[] = String.[]
trim_right (String.◌∷◌ c s) =
    let rest = trim_right s in
    if is_space (code c) && is_empty rest then String.[] else String.◌∷◌ c rest

-- strings.TrimSpace
unfoldable pub trim_space : String → String
unfolding trim_left trim_right is_space
trim_space s = trim_right (trim_left s)

trim_space_spaces : trim_space "  a b \n" ≡ "a b"
unfolding trim_space
trim_space_spaces = refl

-- The pattern of a key: a letter or digit, then at most 159 of these and of `_ . : / -`.
abbrev pub is_alphanumeric : ℕ → Bool
is_alphanumeric c = (leb 65 c && leb c 90) || (leb 97 c && leb c 122) || (leb 48 c && leb c 57)

abbrev pub is_key_char : ℕ → Bool
is_key_char c = is_alphanumeric c || c == 95 || c == 46 || c == 58 || c == 47 || c == 45

abbrev pub all_key_chars : ℕ → String → Bool
all_key_chars room String.[] = true
all_key_chars zero (String.◌∷◌ c s) = false
all_key_chars (suc room) (String.◌∷◌ c s) = is_key_char (code c) && all_key_chars room s

unfoldable pub is_key : String → Bool
is_key String.[] = false
is_key (String.◌∷◌ c s) = is_alphanumeric (code c) && all_key_chars 159 s

module _ (c : Char) (s : String) where
  trim_left_space : is_space (code c) ≡ true → trim_left (String.◌∷◌ c s) ≡ trim_left s
  unfolding trim_left
  trim_left_space h = if_true _ _ (is_space (code c)) h

  trim_left_other : is_space (code c) ≡ false → trim_left (String.◌∷◌ c s) ≡ String.◌∷◌ c s
  unfolding trim_left
  trim_left_other h = if_false _ _ (is_space (code c)) h

  trim_right_last :
      is_space (code c) && is_empty (trim_right s) ≡ true → trim_right (String.◌∷◌ c s) ≡ String.[]
  unfolding trim_right
  trim_right_last h = if_true _ _ (is_space (code c) && is_empty (trim_right s)) h

  trim_right_other :
      is_space (code c) && is_empty (trim_right s) ≡ false
      → trim_right (String.◌∷◌ c s) ≡ String.◌∷◌ c (trim_right s)
  unfolding trim_right
  trim_right_other h = if_false _ _ (is_space (code c) && is_empty (trim_right s)) h

trim_right_twice : (s : String) → trim_right (trim_right s) ≡ trim_right s
unfolding trim_right
trim_right_twice String.[] = refl
trim_right_twice (String.◌∷◌ c s) =
    elim (Bool-cases (is_space (code c) && is_empty (trim_right s))) [
      | inl last ↦ ap trim_right (trim_right_last c s last) ∙ sym (trim_right_last c s last)
      | inr other ↦
          ap trim_right (trim_right_other c s other)
          ∙ trim_right_other c (trim_right s)
              (ap (λ t. is_space (code c) && is_empty t) (trim_right_twice s) ∙ other)
          ∙ ap (String.◌∷◌ c) (trim_right_twice s)
          ∙ sym (trim_right_other c s other)
    ]

trim_left_of_trimmed :
    (s : String) → trim_left (trim_right (trim_left s)) ≡ trim_right (trim_left s)
unfolding trim_left trim_right
trim_left_of_trimmed String.[] = refl
trim_left_of_trimmed (String.◌∷◌ c s) = elim (Bool-cases (is_space (code c))) [
  | inl space ↦
      let e = trim_left_space c s space in
      ap (λ t. trim_left (trim_right t)) e ∙ trim_left_of_trimmed s ∙ sym (ap trim_right e)
  | inr other ↦
      let e = trim_left_other c s other in
      let f = trim_right_other c s (ap (λ b. b && is_empty (trim_right s)) other) in
      ap (λ t. trim_left (trim_right t)) e
      ∙ ap trim_left f
      ∙ trim_left_other c (trim_right s) other
      ∙ sym f
      ∙ sym (ap trim_right e)
]

-- A trimmed text is left as it is.
pub trim_space_twice : (s : String) → trim_space (trim_space s) ≡ trim_space s
unfolding trim_space
trim_space_twice s = ap trim_right (trim_left_of_trimmed s) ∙ trim_right_twice (trim_left s)

-- A decimal digit.
abbrev digit : ℕ → String
digit n =
    if n == 0
    then "0"
    else if n == 1
    then "1"
    else if n == 2
    then "2"
    else if n == 3
    then "3"
    else if n == 4
    then "4"
    else if n == 5
    then "5"
    else if n == 6
    then "6"
    else if n == 7
    then "7"
    else if n == 8
    then "8"
    else "9"

show_digits : ℕ → ℕ → String
show_digits zero n = ""
show_digits (suc k) n =
    let higher = show_digits k (n / 10) in
    if n / 10 == 0 then digit (n % 10) else higher ++ digit (n % 10)

-- The decimal digits of a 64-bit number, which has at most 20 of them.
unfoldable pub show_ℕ : ℕ → String
unfolding show_digits
show_ℕ n = show_digits 20 n

show_ℕ_123 : show_ℕ 123 ≡ "123"
unfolding show_ℕ
show_ℕ_123 = refl
