-- ===== src/Travel/Hours.antt =====
-- When a door is open, said without the clock's arithmetic.
use new_yokosuka_server.Base.{
  ℕ, ◌+◌, ◌*◌, ◌≤◌, ◌<◌, Bool, true, false, ◌≡◌, ◌⊎◌, ◌↔◌, inl, inr, arith, Bool-cases,
  if◌then◌else◌, if_true, if_false, ◌&&◌, subst,
}
use new_yokosuka_server.Base.Int.{ℤ, pos, negsuc, pos_part, ltb_ℤ, leb_ℤ}
use new_yokosuka_server.Travel.{
  OpenWindow, TimeOfDay, since_midnight, hour_length, minute_length, is_open, has_bad_hours,
  scale_ℤ,
}

pub record IsTime (t : TimeOfDay) : Type 0 where
  pub hour : t.hour < 24
  pub minute : t.minute < 60
  pub second : t.second < 60
  pub nanosecond : t.nanosecond < 1000000000

-- The instant, counted from a midnight, shows the time of day, belongs to the day that begins at
-- the boundary hour, and lies between the two minutes.
pub record IsWithin (window : OpenWindow) (t : TimeOfDay) (instant : ℕ) : Type 0 where
  pub shows : (instant ≡ since_midnight t) ⊎ (instant ≡ since_midnight t + 24 * hour_length)
  pub after_boundary : pos_part window.day_boundary_hour * hour_length ≤ instant
  pub same_day : instant < (pos_part window.day_boundary_hour + 24) * hour_length
  pub begun : pos_part window.start_minute * minute_length ≤ instant
  pub not_over : instant < pos_part window.end_minute * minute_length

start_le :
    (z : ℤ) (n : ℕ)
    → ltb_ℤ z (pos 0) ≡ false
    → (leb_ℤ (scale_ℤ z minute_length) (pos n) ≡ true) ↔ (pos_part z * minute_length ≤ n)
start_le (pos m) n h = (λ e. ground arith, λ e. ground arith)
start_le (negsuc m) n h = absurd (ground arith)

lt_end :
    (z : ℤ) (n : ℕ)
    → ltb_ℤ z (pos 0) ≡ false
    → (ltb_ℤ (pos n) (scale_ℤ z minute_length) ≡ true) ↔ (n < pos_part z * minute_length)
lt_end (pos m) n h = (λ e. ground arith, λ e. ground arith)
lt_end (negsuc m) n h = absurd (ground arith)

-- The instant of the boundary's day that shows the time of day.
abbrev instant_of : ℤ → TimeOfDay → ℕ
instant_of boundary t =
    if ltb_ℤ (pos t.hour) boundary then since_midnight t + 24 * hour_length else since_midnight t

-- Where the boundary lies among the instants that show the time of day.
instant_of-boundary :
    (b : ℤ) (t : TimeOfDay)
    → ltb_ℤ b (pos 0) ≡ false
    → ltb_ℤ (pos 23) b ≡ false
    → IsTime t
    → (pos_part b * hour_length ≤ instant_of b t)
      × (instant_of b t < (pos_part b + 24) * hour_length)
instant_of-boundary (negsuc m) t low high time = absurd (ground arith)
instant_of-boundary (pos b) t low high time = (
  ground (arith, time.hour, time.minute, time.second, time.nanosecond),
  ground (arith, time.hour, time.minute, time.second, time.nanosecond),
)

instant_of_unique :
    (b : ℤ) (t : TimeOfDay) (n : ℕ)
    → ltb_ℤ b (pos 0) ≡ false
    → ltb_ℤ (pos 23) b ≡ false
    → IsTime t
    → (n ≡ since_midnight t) ⊎ (n ≡ since_midnight t + 24 * hour_length)
    → pos_part b * hour_length ≤ n
    → n < (pos_part b + 24) * hour_length
    → n ≡ instant_of b t
instant_of_unique (negsuc m) t n low high time shows after same = absurd (ground arith)
instant_of_unique (pos b) t n low high time shows after same =
    ground (arith, time.hour, time.minute, time.second, time.nanosecond)

instant_of-shows :
    (b : ℤ) (t : TimeOfDay)
    → (instant_of b t ≡ since_midnight t) ⊎ (instant_of b t ≡ since_midnight t + 24 * hour_length)
instant_of-shows b t = elim (Bool-cases (ltb_ℤ (pos t.hour) b)) [
  | inl early ↦ inr (if_true _ _ (ltb_ℤ (pos t.hour) b) early)
  | inr late ↦ inl (if_false _ _ (ltb_ℤ (pos t.hour) b) late)
]

-- What the test of the hours says of each field.
record Hours (window : OpenWindow) : Type 0 where
  low : ltb_ℤ window.day_boundary_hour (pos 0) ≡ false
  high : ltb_ℤ (pos 23) window.day_boundary_hour ≡ false
  start : ltb_ℤ window.start_minute (pos 0) ≡ false
  end : ltb_ℤ window.end_minute (pos 0) ≡ false

end_positive : (a b : ℤ) → ltb_ℤ a (pos 0) ≡ false → leb_ℤ b a ≡ false → ltb_ℤ b (pos 0) ≡ false
end_positive (pos a) (pos b) h g = ground arith
end_positive (pos a) (negsuc b) h g = absurd (ground arith)
end_positive (negsuc a) b h g = absurd (ground arith)

good-Hours : (window : OpenWindow) → has_bad_hours window ≡ false → Hours window
good-Hours window h = record {
  low = ground arith;
  high = ground arith;
  start = ground arith;
  end = end_positive window.start_minute window.end_minute (ground arith) (ground arith);
}

and_both : (a b : Bool) → ((a && b) ≡ true) ↔ ((a ≡ true) × (b ≡ true))
and_both a b = ground arith

-- With hours that a loaded rule has, a door is open at a time of day just when an instant that
-- shows it lies in the window and in the day that begins at the boundary hour.
pub is_open_iff :
    (window : OpenWindow) (t : TimeOfDay)
    → has_bad_hours window ≡ false
    → IsTime t
    → (is_open window t ≡ true) ↔ ((instant : ℕ) × IsWithin window t instant)
unfolding is_open
is_open_iff window t good time =
    let hours = good-Hours window good in
    let now = instant_of window.day_boundary_hour t in
    let test =
      and_both (leb_ℤ (scale_ℤ window.start_minute minute_length) (pos now))
        (ltb_ℤ (pos now) (scale_ℤ window.end_minute minute_length)) in
    let lower = start_le window.start_minute now hours.start in
    let upper = lt_end window.end_minute now hours.end in
    (
      λ opened.
          let day = instant_of-boundary window.day_boundary_hour t hours.low hours.high time in
          (
            now,
            record {
              shows = instant_of-shows window.day_boundary_hour t;
              after_boundary = day.0;
              same_day = day.1;
              begun = lower.0 (test.0 opened).0;
              not_over = upper.0 (test.0 opened).1;
            },
          ),
      λ (instant, w).
          let same =
            instant_of_unique window.day_boundary_hour t instant hours.low hours.high time w.shows
              w.after_boundary w.same_day in
          test.1 (
            lower.1 (subst (λ n. pos_part window.start_minute * minute_length ≤ n) same w.begun),
            upper.1 (subst (λ n. n < pos_part window.end_minute * minute_length) same w.not_over),
          ),
    )
