-- ===== src/Travel/Examples.antt =====
-- A manifest with one rule, over natural numbers in place of floats.
use new_yokosuka_server.Base.{
  ◌≡◌, ◌↔◌, inr, refl, true, some, none, [], ◌∷◌, ℕ, arith, str_eq, if◌then◌else◌,
}
use new_yokosuka_server.Base.Int.{pos}
use new_yokosuka_server.Base.Keyed.{load_keyed}
use new_yokosuka_server.Base.Lists.{All}
use new_yokosuka_server.Base.Text.{trim_space}
use new_yokosuka_server.Floats.Naturals.{naturals}
use new_yokosuka_server.Travel.{
  OpenWindow, TimeOfDay, Rule, Manifest, Catalog, load, load_interiors, load_rules, validate_rule,
  check_world, find_rule, controls, is_open,
}
use new_yokosuka_server.Travel.Hours.{IsTime, IsWithin, is_open_iff}
use new_yokosuka_server.Travel.Catalogs.{IsServed, IsRuleFor, load-IsServed}

-- From 19:00 to 26:00, on a day that begins at 5:00.
abbrev bar_hours : OpenWindow
bar_hours = record {
  kind = "native-clock-window";
  start_minute = pos 1140;
  end_minute = pos 1560;
  day_boundary_hour = pos 5;
  boundary = "start-inclusive, end-exclusive";
}

abbrev one_thirty : TimeOfDay
one_thirty = record { hour = 1; minute = 30; second = 0; nanosecond = 0 }

one_thirty-IsTime : IsTime one_thirty
one_thirty-IsTime = record {
  hour = omega arith;
  minute = omega arith;
  second = omega arith;
  nanosecond = omega arith;
}

open_at_night : is_open bar_hours one_thirty ≡ true
unfolding is_open
open_at_night = refl

is_open_iff_example :
    (is_open bar_hours one_thirty ≡ true) ↔ ((instant : ℕ) × IsWithin bar_hours one_thirty instant)
is_open_iff_example = is_open_iff bar_hours one_thirty refl one_thirty-IsTime

abbrev bar_rule : Rule naturals
bar_rule = record {
  id = "bar";
  transition_id = "street-bar";
  source = record {
    world_id = "street";
    area = "a";
    door_selector = pos 1;
    layer = pos 0;
    position = (1, 2, 3);
    maximum_horizontal_distance = 4;
  };
  destination = record { world_id = "bar"; area = "b"; entry = pos 0 };
  open_window = bar_hours;
  authorization_lifetime_ms = pos 5000;
  denial_message = "Closed";
}

abbrev manifest : Manifest naturals
manifest = record {
  schema = "new-yokosuka-timed-transition-access-v1";
  always_accessible_interior_world_ids = "home" ∷ [];
  always_accessible_interior_policy = "always";
  rules = bar_rule ∷ [];
}

abbrev catalog : Catalog naturals
catalog = record {
  by_transition_id = λ k. if str_eq k "street-bar" then some bar_rule else none;
  controlled_world_ids =
      λ w. controls naturals (λ k. if str_eq k "home" then some "home" else none) (bar_rule ∷ []) w;
  always_accessible_world_ids = λ k. if str_eq k "home" then some "home" else none;
}

loaded : load naturals manifest ≡ inr catalog
unfolding load load_interiors load_rules load_keyed check_world validate_rule trim_space
loaded = refl

load-IsServed_example :
    All (IsServed naturals catalog) manifest.rules
    × IsRuleFor naturals "street-bar" manifest.rules (find_rule naturals catalog "street-bar")
load-IsServed_example = load-IsServed naturals manifest catalog "street-bar" loaded
