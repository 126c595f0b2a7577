-- ===== src/Base/Keyed.antt =====
-- Loading a list into a map by a text key, as the catalogs do: an element that is refused or whose
-- key is taken stops the load.
use Prim.Native.String.{String}
use mathlib.Core.List.{List, [], ◌∷◌, Mem, mem-cons_self, mem-cons_of_mem}
use mathlib.Core.Logic.{◌⊎◌, inl, inr}
use mathlib.Core.Option.{Option, none, some}
use mathlib.Core.Path.{◌≡◌, sym, ◌∙◌, ap, subst}
use native.Mathlib.Omega.{arith}
use text.Mathlib.Text.{◌==◌ as str_eq}
use text.Mathlib.TextEquality.{eq_iff}
use new_yokosuka_server.Base.Tests.{if◌then◌else◌, is_some, Option-cases, Bool-cases}
use new_yokosuka_server.Base.Lists.{All}
use new_yokosuka_server.Base.Maps.{put_text}

unfoldable pub load_keyed {ℓ κ} :
    {E : Type ℓ} {A : Type κ}
    → (A → Option E)
    → E
    → (A → String)
    → List A
    → (String → Option A)
    → E ⊎ (String → Option A)
load_keyed check duplicate key [] m = inr m
load_keyed check duplicate key (x ∷ xs) m =
    let rest = load_keyed check duplicate key xs (put_text m (key x) (some x)) in
    elim (check x) [ some e ↦ inl e | none ↦ if is_some (m (key x)) then inl duplicate else rest ]

module _ {E A : Type 0} (check : A → Option E) (duplicate : E) (key : A → String) where
  -- The elements passed their test, and the map finds just them, each under its key, besides what
  -- it held before.
  pub record Indexes (xs : List A) (m t : String → Option A) : Type 0 where
    pub checked : All (λ x. check x ≡ none) xs
    pub found : All (λ x. t (key x) ≡ some x) xs
    pub kept : (k : String) (x : A) → m k ≡ some x → t k ≡ some x
    pub only : (k : String) (x : A) → t k ≡ some x → (m k ≡ some x) ⊎ (Mem x xs × (key x ≡ k))

  load_step :
      (x : A) (xs : List A) (m t : String → Option A)
      → load_keyed check duplicate key (x ∷ xs) m ≡ inr t
      → (check x ≡ none)
        × (m (key x) ≡ none)
        × (load_keyed check duplicate key xs (put_text m (key x) (some x)) ≡ inr t)
  unfolding load_keyed
  load_step x xs m t h = elim (Option-cases (check x)) [
    | inr (e, bad) ↦ absurd (ground (arith, bad))
    | inl good ↦ elim (Option-cases (m (key x))) [
      | inr (y, taken) ↦ absurd (ground (arith, good, taken))
      | inl free ↦ (good, free, ground (arith, good, free))
    ]
  ]

  put_found : (m : String → Option A) (k : String) (x : A) → put_text m k (some x) k ≡ some x
  put_found m k x = ground (arith, eq_iff k k)

  put_kept :
      (m : String → Option A) (k j : String) (x y : A)
      → m k ≡ none
      → m j ≡ some y
      → put_text m k (some x) j ≡ some y
  put_kept m k j x y free h = elim (Bool-cases (str_eq j k)) [
    | inl same ↦ absurd (none≢some (sym free ∙ ap m (sym ((eq_iff j k).0 same)) ∙ h))
    | inr other ↦ ground (arith, other, h)
  ]
    where
      none≢some : ◌≡◌ {A = Option A} none (some y) → ⊥
      none≢some e = absurd (cc)

  put_only :
      (m : String → Option A) (k j : String) (x y : A)
      → put_text m k (some x) j ≡ some y
      → (m j ≡ some y) ⊎ ((y ≡ x) × (k ≡ j))
  put_only m k j x y h = elim (Bool-cases (str_eq j k)) [
    | inl same ↦ inr (ground (arith, same), sym ((eq_iff j k).0 same))
    | inr other ↦ inl (ground (arith, other, h))
  ]

  widen :
      (x : A) (xs : List A) (m : String → Option A) (k : String) (y : A)
      → (put_text m (key x) (some x) k ≡ some y) ⊎ (Mem y xs × (key y ≡ k))
      → (m k ≡ some y) ⊎ (Mem y (x ∷ xs) × (key y ≡ k))
  widen x xs m k y (inr (mem, e)) = inr (mem-cons_of_mem x mem, e)
  widen x xs m k y (inl f) = elim (put_only m (key x) k x y f) [
    | inl old ↦ inl old
    | inr (same, e) ↦ inr (subst (λ z. Mem z (x ∷ xs)) (sym same) mem-cons_self, ap key same ∙ e)
  ]

  pub load_keyed-Indexes :
      (xs : List A) (m t : String → Option A)
      → load_keyed check duplicate key xs m ≡ inr t
      → Indexes xs m t
  unfolding load_keyed
  load_keyed-Indexes [] m t h =
      let e = inr_inj h in
      record {
        checked = tt;
        found = tt;
        kept = λ k x f. ap (λ (u : String → Option A). u k) (sym e) ∙ f;
        only = λ k x f. inl (ap (λ (u : String → Option A). u k) e ∙ f);
      }
    where
      inr_inj :
          {u v : String → Option A} → ◌≡◌ {A = E ⊎ (String → Option A)} (inr u) (inr v) → u ≡ v
      inr_inj h = cc
  load_keyed-Indexes (x ∷ xs) m t h =
      let (good, free, later) = load_step x xs m t h in
      let ih = load_keyed-Indexes xs (put_text m (key x) (some x)) t later in
      record {
        checked = (good, ih.checked);
        found = (ih.kept (key x) x (put_found m (key x) x), ih.found);
        kept = λ k y f. ih.kept k y (put_kept m (key x) k x y free f);
        only = λ k y f. widen x xs m k y (ih.only k y f);
      }
