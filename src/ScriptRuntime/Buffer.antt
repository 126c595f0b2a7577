-- ===== src/ScriptRuntime/Buffer.antt =====
-- internal/scriptruntime/session.go, lockedBuffer: the first bytes of what the process prints as
-- diagnostics, each write under the lock.
pub mod Examples
use new_yokosuka_server.Base.{
  ℕ, zero, suc, ◌-◌, ◌≤◌, ◌≡◌, List, [], ◌∷◌, ◌++◌, ltb, if◌then◌else◌, arith, refl, ap, sym, ◌∙◌,
  inl, inr, ◌<◌, ◌⊎◌, min,
}
use mathlib.Core.List.{append-nil, append_assoc}
use new_yokosuka_server.Base.Lists.{length}

pub record LockedBuffer : Type 0 where
  pub value : List ℕ
  pub limit : ℕ

abbrev pub take {ℓ} : {A : Type ℓ} → ℕ → List A → List A
take zero xs = []
take (suc n) [] = []
take (suc n) (x ∷ xs) = x ∷ take n xs

-- The bytes, and the number that is reported as written. `limit - length` is positive just when the
-- source's signed difference is.
unfoldable pub write : List ℕ → LockedBuffer → ℕ × LockedBuffer
write value b =
    let original = length value in
    let remaining = b.limit - length b.value in
    if ltb 0 remaining
    then (
      original,
      record b {
        value = b.value ++ (if ltb remaining original then take remaining value else value);
      },
    )
    else (original, b)

unfoldable pub write_all : List (List ℕ) → LockedBuffer → LockedBuffer
write_all [] b = b
write_all (value ∷ values) b = write_all values (write value b).1

abbrev pub join : List (List ℕ) → List ℕ
join [] = []
join (value ∷ values) = value ++ join values

take-all : (n : ℕ) (xs : List ℕ) → length xs ≤ n → take n xs ≡ xs
take-all zero [] h = refl
take-all zero (x ∷ xs) h = absurd (omega (arith, h))
take-all (suc n) [] h = refl
take-all (suc n) (x ∷ xs) h = ap (λ ys. x ∷ ys) (take-all n xs (omega (arith, h)))

take-append :
    (n : ℕ) (xs ys : List ℕ) → length xs ≤ n → take n (xs ++ ys) ≡ xs ++ take (n - length xs) ys
take-append n [] ys h = ap (λ m. take m ys) (omega arith)
take-append zero (x ∷ xs) ys h = absurd (omega (arith, h))
take-append (suc n) (x ∷ xs) ys h =
    ap (λ zs. x ∷ zs) (take-append n xs ys (omega (arith, h)))
    ∙ ap (λ m. x ∷ xs ++ take m ys) (omega arith)

take-append_full : (n : ℕ) (xs ys : List ℕ) → n ≤ length xs → take n (xs ++ ys) ≡ take n xs
take-append_full zero xs ys h = refl
take-append_full (suc n) [] ys h = absurd (omega (arith, h))
take-append_full (suc n) (x ∷ xs) ys h =
    ap (λ zs. x ∷ zs) (take-append_full n xs ys (omega (arith, h)))

length-take : (n : ℕ) (xs : List ℕ) → length (take n xs) ≡ min n (length xs)
length-take zero xs = omega arith
length-take (suc n) [] = omega arith
length-take (suc n) (x ∷ xs) = omega (arith, length-take n xs)

abbrev holding : ℕ → List ℕ → LockedBuffer
holding limit bytes = record { value = bytes; limit = limit }

abbrev fitted : ℕ → List ℕ → List ℕ
fitted remaining value = if ltb remaining (length value) then take remaining value else value

fitted-take : (remaining : ℕ) (value : List ℕ) → fitted remaining value ≡ take remaining value
fitted-take remaining value = ground (arith, take-all remaining value)

write_full :
    (limit : ℕ) (bytes value : List ℕ)
    → limit ≤ length bytes
    → write value (holding limit bytes) ≡ (length value, holding limit bytes)
unfolding write
write_full limit bytes value h = ground (arith, h)

write_room :
    (limit : ℕ) (bytes value : List ℕ)
    → length bytes < limit
    → write value (holding limit bytes)
      ≡ (length value, holding limit (bytes ++ fitted (limit - length bytes) value))
unfolding write
write_room limit bytes value h = ground (arith, h)

write-take :
    (limit : ℕ) (seen value : List ℕ)
    → write value (holding limit (take limit seen))
      ≡ (length value, holding limit (take limit (seen ++ value)))
write-take limit seen value = elim (cases (length seen) limit) [
  | inl room ↦ rw (take-all limit seen (omega (arith, room))) (
      write_room limit seen value room
      ∙ ap (λ bytes. (length value, holding limit bytes))
          (ap (λ zs. seen ++ zs) (fitted-take (limit - length seen) value)
            ∙ sym (take-append limit seen value (omega (arith, room)))))
  | inr full ↦
      write_full limit (take limit seen) value (omega (arith, full, length-take limit seen))
      ∙ ap (λ bytes. (length value, holding limit bytes))
          (sym (take-append_full limit seen value full))
]
  where
    cases : (a b : ℕ) → (a < b) ⊎ (b ≤ a)
    cases a b = omega arith

write_all-append :
    (limit : ℕ) (seen : List ℕ) (values : List (List ℕ))
    → write_all values (holding limit (take limit seen))
      ≡ holding limit (take limit (seen ++ join values))
unfolding write_all
write_all-append limit seen [] = ap (λ zs. holding limit (take limit zs)) (sym (append-nil seen))
write_all-append limit seen (value ∷ values) =
    ap (λ (r : ℕ × LockedBuffer). write_all values r.1) (write-take limit seen value)
    ∙ write_all-append limit (seen ++ value) values
    ∙ ap (λ zs. holding limit (take limit zs)) (append_assoc seen value (join values))

take-nil : (n : ℕ) → take {A = ℕ} n [] ≡ []
take-nil zero = refl
take-nil (suc n) = refl

write-length : (value : List ℕ) (b : LockedBuffer) → (write value b).0 ≡ length value
unfolding write
write-length value b = ground arith

-- After any writes the buffer holds the first bytes of all that was written, as many as the limit
-- allows, and a further write reports all its bytes as written.
pub write_all-take :
    (limit : ℕ) (values : List (List ℕ)) (value : List ℕ)
    → ((write_all values (record { value = []; limit = limit })).value ≡ take limit (join values))
      × ((write value (write_all values (record { value = []; limit = limit }))).0 ≡ length value)
write_all-take limit values value = (
  ap (λ bytes. (write_all values (holding limit bytes)).value) (sym (take-nil limit))
      ∙ ap (λ (b : LockedBuffer). b.value) (write_all-append limit [] values),
  write-length value _,
)
