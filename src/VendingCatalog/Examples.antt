-- ===== src/VendingCatalog/Examples.antt =====
-- A manifest with one product and one machine.
use new_yokosuka_server.Base.{◌≡◌, ◌<◌, inr, refl, some, none, [], ◌∷◌, str_eq, if◌then◌else◌}
use new_yokosuka_server.Base.Int.{pos, pos_part}
use new_yokosuka_server.Base.Keyed.{load_keyed}
use new_yokosuka_server.Base.Lists.{All}
use new_yokosuka_server.Floats.Naturals.{naturals}
use new_yokosuka_server.VendingCatalog.{
  Product, Machine, Manifest, Catalog, load, load_machines, finish_load, check_product,
  check_machine, find_product, find_machine,
}
use new_yokosuka_server.VendingCatalog.Loaded.{IsListed, load_finds}
use new_yokosuka_server.VendingCatalog.Draws.{winning_below, load_draws}

abbrev cola : Product
cola = record { key = "jet_cola"; name = "Jet Cola"; resource_code = "JC"; temperature = "cold" }

abbrev corner : Machine naturals
corner = record { id = "m1"; world_id = "street"; position = (1, 2, 3); interaction_radius = 2 }

abbrev shop : Manifest naturals
shop = record {
  schema = "new-yokosuka-vending-manifest-v1";
  unit_price = pos 100;
  winning_can_chance = record { numerator = pos 1; denominator = pos 20 };
  products = cola ∷ [];
  prize = record { key = "winning_can"; name = "Winning Can"; resource_code = "WC" };
  machines = corner ∷ [];
}

abbrev open_shop : Catalog naturals
open_shop = record {
  manifest = shop;
  products = λ k. if str_eq k "jet_cola" then some cola else none;
  machines = λ k. if str_eq k "m1" then some corner else none;
  product_set = cola ∷ [];
}

loaded : load naturals shop ≡ inr open_shop
unfolding load load_machines finish_load load_keyed check_product check_machine
loaded = refl

load_finds_example :
    All (λ (p : Product). find_product naturals open_shop p.key ≡ some p) shop.products
    × All (λ (m : Machine naturals). find_machine naturals open_shop m.id ≡ some m) shop.machines
    × IsListed
        (λ (p : Product). p.key)
        shop.products
        "jet_cola"
        (find_product naturals open_shop "jet_cola")
    × IsListed
        (λ (m : Machine naturals). m.id)
        shop.machines
        "m1"
        (find_machine naturals open_shop "m1")
load_finds_example = load_finds naturals shop open_shop "jet_cola" "m1" loaded

load_draws_example :
    (winning_below naturals open_shop (pos_part shop.winning_can_chance.denominator)
      ≡ pos_part shop.winning_can_chance.numerator)
    × (pos_part shop.winning_can_chance.numerator < pos_part shop.winning_can_chance.denominator)
load_draws_example = load_draws naturals shop open_shop loaded
