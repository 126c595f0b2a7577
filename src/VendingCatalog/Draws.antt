-- ===== src/VendingCatalog/Draws.antt =====
-- The draws that win.
use new_yokosuka_server.Base.{
  ℕ, zero, suc, ◌+◌, ◌<◌, ◌≤◌, ◌≡◌, false, ◌||◌, inr, arith, if◌then◌else◌, min, subst, sym, ap,
  ltb, ◌∙◌,
}
use new_yokosuka_server.Base.Int.{ℤ, pos, negsuc, pos_part, leb_ℤ, ltb_ℤ}
use new_yokosuka_server.Floats.{Floats}
use new_yokosuka_server.VendingCatalog.{
  Manifest, Catalog, Chance, load, is_winning_draw, is_bad_chance,
}
use new_yokosuka_server.VendingCatalog.Loaded.{load-Holds}

draw_below :
    (numerator denominator : ℤ) (n : ℕ)
    → leb_ℤ numerator (pos 0) ≡ false
    → n < pos_part denominator
    → (if ltb_ℤ (pos n) (pos 0) || leb_ℤ denominator (pos n)
        then false
        else ltb_ℤ (pos n) numerator)
      ≡ ltb n (pos_part numerator)
draw_below (pos a) (pos b) n h g = ground (arith, h, g)
draw_below (pos a) (negsuc b) n h g = absurd (omega (arith, g))
draw_below (negsuc a) b n h g = absurd (ground (arith, h))

module _ (F : Floats) where
  -- How many of the draws 0, 1, … below a number win.
  abbrev pub winning_below : Catalog F → ℕ → ℕ
  winning_below catalog zero = 0
  winning_below catalog (suc n) =
      (if is_winning_draw F catalog (pos n) then 1 else 0) + winning_below catalog n

  is_winning_draw_below :
      (catalog : Catalog F) (n : ℕ)
      → leb_ℤ catalog.manifest.winning_can_chance.numerator (pos 0) ≡ false
      → n < pos_part catalog.manifest.winning_can_chance.denominator
      → is_winning_draw F catalog (pos n)
        ≡ ltb n (pos_part catalog.manifest.winning_can_chance.numerator)
  unfolding is_winning_draw
  is_winning_draw_below catalog n good h =
      draw_below catalog.manifest.winning_can_chance.numerator
        catalog.manifest.winning_can_chance.denominator n good h

  count :
      (catalog : Catalog F) (n : ℕ)
      → leb_ℤ catalog.manifest.winning_can_chance.numerator (pos 0) ≡ false
      → n ≤ pos_part catalog.manifest.winning_can_chance.denominator
      → winning_below catalog n ≡ min n (pos_part catalog.manifest.winning_can_chance.numerator)
  count catalog zero good h = omega arith
  count catalog (suc n) good h = ground (
    arith,
    is_winning_draw_below catalog n good (omega (arith, h)),
    count catalog n good (omega (arith, h)),
  )

  good_chance :
      (chance : Chance)
      → is_bad_chance chance ≡ false
      → (leb_ℤ chance.numerator (pos 0) ≡ false)
        × (leb_ℤ chance.denominator chance.numerator ≡ false)
  good_chance chance h = (ground arith, ground arith)

  numerator_lt : (a b : ℤ) → leb_ℤ a (pos 0) ≡ false → leb_ℤ b a ≡ false → pos_part a < pos_part b
  numerator_lt (pos a) (pos b) h g = ground arith
  numerator_lt (pos a) (negsuc b) h g = absurd (ground arith)
  numerator_lt (negsuc a) b h g = absurd (ground arith)

  -- Of the draws from 0 up to the denominator of a catalog that was loaded, just as many win as the
  -- numerator says, and not all of them.
  pub load_draws :
      (manifest : Manifest F) (catalog : Catalog F)
      → load F manifest ≡ inr catalog
      → (winning_below catalog (pos_part manifest.winning_can_chance.denominator)
          ≡ pos_part manifest.winning_can_chance.numerator)
        × (pos_part manifest.winning_can_chance.numerator
            < pos_part manifest.winning_can_chance.denominator)
  load_draws manifest catalog h =
      let holds = load-Holds F manifest catalog h in
      let (low, high) = good_chance manifest.winning_can_chance holds.chance in
      let below =
        numerator_lt manifest.winning_can_chance.numerator manifest.winning_can_chance.denominator
          low high in
      let same = sym (ap (λ (m : Manifest F). m.winning_can_chance) holds.same) in
      (
        count catalog (pos_part manifest.winning_can_chance.denominator)
              (subst (λ (c : Chance). leb_ℤ c.numerator (pos 0) ≡ false) same low)
              (subst
                (λ (c : Chance).
                  pos_part manifest.winning_can_chance.denominator ≤ pos_part c.denominator)
                same (omega arith))
            ∙ subst
                (λ (c : Chance).
                  min (pos_part manifest.winning_can_chance.denominator) (pos_part c.numerator)
                  ≡ pos_part manifest.winning_can_chance.numerator)
                same (omega (arith, below)),
        below,
      )
