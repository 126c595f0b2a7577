-- ===== src/LogBuffer/Ring.antt =====
-- The buffer holds the last lines that were appended.
use new_yokosuka_server.Base.{
  ℕ, zero, suc, ◌-◌, ◌≤◌, ◌<◌, ◌≡◌, ◌⊎◌, inl, inr, refl, sym, ap, ◌∙◌, arith, List, [], ◌∷◌, ◌++◌,
  ◌==◌, if◌then◌else◌, if_true, if_false,
}
use new_yokosuka_server.Base.Lists.{length, length-append}
use mathlib.Core.List.{append_assoc, append-nil}
use new_yokosuka_server.LogBuffer.{Buffer, drop, last_of, append_locked, append_all}

module _ {A : Type 0} where
  drop_none : (n : ℕ) (xs : List A) → n ≡ 0 → drop n xs ≡ xs
  drop_none n xs h = ap (λ k. drop k xs) h

  drop_same : (m n : ℕ) (xs : List A) → m ≡ n → drop m xs ≡ drop n xs
  drop_same m n xs h = ap (λ k. drop k xs) h

  drop-append : (n : ℕ) (xs ys : List A) → n ≤ length xs → drop n (xs ++ ys) ≡ drop n xs ++ ys
  drop-append zero xs ys h = refl
  drop-append (suc n) [] ys h = absurd (omega (arith, h))
  drop-append (suc n) (x ∷ xs) ys h = drop-append n xs ys (omega (arith, h))

  length-drop : (n : ℕ) (xs : List A) → length (drop n xs) ≡ length xs - n
  length-drop zero xs = omega arith
  length-drop (suc n) [] = omega arith
  length-drop (suc n) (x ∷ xs) = omega (arith, length-drop n xs)

  drop-drop : (n : ℕ) (xs : List A) → drop 1 (drop n xs) ≡ drop (suc n) xs
  drop-drop zero xs = refl
  drop-drop (suc n) [] = refl
  drop-drop (suc n) (x ∷ xs) = drop-drop n xs

abbrev holding : ℕ → List (List ℕ) → List ℕ → Buffer
holding max lines pending = record { max = max; lines = lines; pending = pending }

abbrev shifted : ℕ → List (List ℕ) → List (List ℕ)
shifted max lines = if length lines == max then drop 1 lines else lines

room_or_full : (a b : ℕ) → (a < b) ⊎ (b ≤ a)
room_or_full a b = omega arith

append_last :
    (max : ℕ) (seen : List (List ℕ)) (line : List ℕ)
    → 0 < max
    → shifted max (last_of max seen) ++ line ∷ [] ≡ last_of max (seen ++ line ∷ [])
append_last max seen line some_lines =
    let total = length-append seen (line ∷ []) in
    let held = length-drop (length seen - max) seen in
    elim (room_or_full (length seen) max) [
      | inl room ↦
          ap (λ lines. lines ++ line ∷ [])
            (if_false _ _ (length (last_of max seen) == max) (ground (arith, held, room))
              ∙ drop_none (length seen - max) seen (omega (arith, room)))
          ∙ sym (
              drop_none (length (seen ++ line ∷ []) - max) (seen ++ line ∷ [])
                (omega (arith, total, room)))
      | inr full ↦
          ap (λ lines. lines ++ line ∷ [])
            (if_true _ _ (length (last_of max seen) == max) (ground (arith, held, full))
              ∙ drop-drop (length seen - max) seen)
          ∙ sym (
              drop-append (suc (length seen - max)) seen (line ∷ [])
                (omega (arith, full, some_lines)))
          ∙ drop_same (suc (length seen - max)) (length (seen ++ line ∷ []) - max)
              (seen ++ line ∷ []) (omega (arith, total, full))
    ]

append_all-from :
    (max : ℕ) (seen lines : List (List ℕ)) (pending : List ℕ)
    → 0 < max
    → append_all lines (holding max (last_of max seen) pending)
      ≡ holding max (last_of max (seen ++ lines)) pending
unfolding append_all append_locked
append_all-from max seen [] pending h =
    ap (λ all. holding max (last_of max all) pending) (sym (append-nil seen))
append_all-from max seen (line ∷ lines) pending h =
    ap (λ held. append_all lines (holding max held pending)) (append_last max seen line h)
    ∙ append_all-from max (seen ++ line ∷ []) lines pending h
    ∙ ap (λ all. holding max (last_of max all) pending) (append_assoc seen (line ∷ []) lines)

-- A buffer with room for at least one line that is given lines one after the other holds the last
-- of them, as many as it has room for, in their order.
pub append_all-last :
    (max : ℕ) (lines : List (List ℕ)) (pending : List ℕ)
    → 0 < max
    → (append_all lines (record { max = max; lines = []; pending = pending })).lines
      ≡ last_of max lines
append_all-last max lines pending h =
    ap (λ held. (append_all lines (holding max held pending)).lines) (sym (empty max))
    ∙ ap (λ (b : Buffer). b.lines) (append_all-from max [] lines pending h)
  where
    empty : (n : ℕ) → drop {A = List ℕ} (0 - n) [] ≡ []
    empty n = drop_none (0 - n) [] (omega arith)
