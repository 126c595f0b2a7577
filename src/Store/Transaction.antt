-- ===== src/Store/Transaction.antt =====
-- Errors of internal/store/store.go, and a transaction: it sees and changes the tables, and a
-- transaction that returns an error is rolled back by its deferred `tx.Rollback()`.
use new_yokosuka_server.Base.{ℕ, zero, suc, ◌≡◌, refl, ◌⊎◌, inl, inr}
use new_yokosuka_server.Base.Int.{ℤ, pos, negsuc}

-- `no_rows` is sql.ErrNoRows passed on as it is; `invalid` stands for the errors that `errors.New`
-- makes of a refused argument; `sql_error` for any other refusal of the database.
pub data Error : Type 0 where
  not_found insufficient duplicate_event revision_conflict script_event_ended script_event_active
        ambiguous_trigger :
      Error
  no_rows invalid sql_error hp_full : Error

pub data Result {ℓ} (A : Type ℓ) : Type ℓ where
  ok : A → Result A
  err : Error → Result A

pub Result-cases {ℓ} :
    {A : Type ℓ} (r : Result A) → ((a : A) × (r ≡ ok a)) ⊎ ((e : Error) × (r ≡ err e))
Result-cases (ok a) = inl (a, refl)
Result-cases (err e) = inr (e, refl)

abbrev pub Tx : Type 0 → Type 0 → Type 0
Tx S A = S → Result (A × S)

infixl 5 ◌>>=◌ ◌>>◌
unfoldable pub ◌>>=◌ : {S A B : Type 0} → Tx S A → (A → Tx S B) → Tx S B
◌>>=◌ m f s = elim (m s) [ ok (a, s') ↦ f a s' | err e ↦ err e ]

abbrev pub ◌>>◌ : {S B : Type 0} → Tx S (Unit {0}) → Tx S B → Tx S B
m >> k = m >>= λ _. k

abbrev pub return : {S A : Type 0} → A → Tx S A
return a s = ok (a, s)

abbrev pub fail : {S A : Type 0} → Error → Tx S A
fail e s = err e

-- BeginTx, the body, then Commit, or Rollback on an error.
unfoldable pub transact : {S A : Type 0} → Tx S A → S → Result A × S
transact m s = elim (m s) [ ok (a, s') ↦ (ok a, s') | err e ↦ (err e, s) ]

-- `if amount <= 0 { return … }`
unfoldable pub require_positive : {S : Type 0} → ℤ → Tx S ℕ
require_positive (pos zero) s = err invalid
require_positive (pos (suc n)) s = ok (suc n, s)
require_positive (negsuc n) s = err invalid

invert {ℓ} :
    {S A B : Type 0} {P : Type ℓ} (f : A → Tx S B) (b : B) (t : S) (r : Result (A × S))
    → (elim r as (λ _. Result (B × S)) [ ok (a, u) ↦ f a u | err e ↦ err e ]) ≡ ok (b, t)
    → ((a : A) (u : S) → r ≡ ok (a, u) → f a u ≡ ok (b, t) → P)
    → P
invert f b t (ok (a, u)) h k = k a u refl h
invert f b t (err e) h k = absurd (cc)

-- A transaction that succeeds went through its first step and then the rest.
pub after_bind {ℓ} :
    {S A B : Type 0} {P : Type ℓ} (m : Tx S A) (f : A → Tx S B) (s : S) {b : B} {t : S}
    → ◌>>=◌ m f s ≡ ok (b, t)
    → ((a : A) (u : S) → m s ≡ ok (a, u) → f a u ≡ ok (b, t) → P)
    → P
unfolding ◌>>=◌
after_bind m f s {b} {t} h k = invert f b t (m s) h k

transact_result {ℓ} :
    {S A : Type 0} (P : S → Type ℓ) (s : S) (r : Result (A × S))
    → P s
    → ((a : A) (t : S) → r ≡ ok (a, t) → P t)
    → P (elim r as (λ _. Result A × S) [ ok (a, t) ↦ (ok a, t) | err e ↦ (err e, s) ]).1
transact_result P s (ok (a, t)) h k = k a t refl
transact_result P s (err e) h k = h

-- What holds of the old state and of the state after a success holds after the transaction.
pub transact_lem {ℓ} :
    {S A : Type 0} (P : S → Type ℓ) (m : Tx S A) (s : S)
    → P s
    → ((a : A) (t : S) → m s ≡ ok (a, t) → P t)
    → P (transact m s).1
unfolding transact
transact_lem P m s h k = transact_result P s (m s) h k

transact_result_ok :
    {S A : Type 0} (s : S) (r : Result (A × S)) (a : A)
    → (elim r as (λ _. Result A × S) [ ok (b, t) ↦ (ok b, t) | err e ↦ (err e, s) ]).0 ≡ ok a
    → r ≡ ok (a, (elim r as (λ _. Result A × S) [ ok (b, t) ↦ (ok b, t) | err e ↦ (err e, s) ]).1)
transact_result_ok s (ok (b, t)) a h = cc
transact_result_ok s (err e) a h = absurd (cc)

pub transact_ok :
    {S A : Type 0} (m : Tx S A) (s : S) {a : A}
    → (transact m s).0 ≡ ok a
    → m s ≡ ok (a, (transact m s).1)
unfolding transact
transact_ok m s {a} h = transact_result_ok s (m s) a h

-- A failure leaves the state.
pub transact_err :
    {S A : Type 0} (m : Tx S A) (s : S) {e : Error} → m s ≡ err e → transact m s ≡ (err e, s)
unfolding transact
transact_err m s h = rw (h, transact)

pub transact_done :
    {S A : Type 0} (m : Tx S A) (s : S) {a : A} {t : S} → m s ≡ ok (a, t) → transact m s ≡ (ok a, t)
unfolding transact
transact_done m s h = rw (h, transact)

pub bind_ok :
    {S A B : Type 0} (m : Tx S A) (f : A → Tx S B) (s : S) {a : A} {t : S}
    → m s ≡ ok (a, t)
    → ◌>>=◌ m f s ≡ f a t
unfolding ◌>>=◌
bind_ok m f s h = rw (h, ◌>>=◌)

pub bind_err :
    {S A B : Type 0} (m : Tx S A) (f : A → Tx S B) (s : S) {e : Error}
    → m s ≡ err e
    → ◌>>=◌ m f s ≡ err e
unfolding ◌>>=◌
bind_err m f s h = rw (h, ◌>>=◌)
