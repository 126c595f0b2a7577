-- ===== src/Store/Examples.antt =====
-- A small database, and the theorems of the store applied to runs on it.
use new_yokosuka_server.Base.{
  ◌+◌, eq_iff, arith, ◌≡◌, ◌≢◌, refl, true, false, String, none, some, [], ◌∷◌, str_eq, eq_iff,
  if◌then◌else◌, ◌==◌,
}
use new_yokosuka_server.Base.Int.{pos}
use new_yokosuka_server.Base.Text.{trim_space}
use new_yokosuka_server.Store.Charge.{purchase_charges}
use new_yokosuka_server.Store.Ledger.{yen_at}
use new_yokosuka_server.Store.Tables.{Db, Character, ItemDefinition, PurchaseRow}
use new_yokosuka_server.Store.Transaction.{
  ok, err, duplicate_event, transact, require_positive, ◌>>=◌,
}
use new_yokosuka_server.Store.Economy.{
  credit_yen, add_yen, record_economy_event, credit_yen_tx, take_yen, has_event,
}
use new_yokosuka_server.Store.Vending.{
  VendingPurchase, purchase_vending_drink, checked_purchase, purchase_tx, existing_purchase,
  serve_request, new_purchase, grant_winning_can, insert_purchase, inventory_of,
}
use new_yokosuka_server.Store.Ledger.{Kept}
use new_yokosuka_server.Store.History.{credit, buy, consume, run, step}
use new_yokosuka_server.Store.History.Sound.{run-IsSoundAt, run_keeps_records}
use new_yokosuka_server.Store.Later.{IsSoundAt}
use new_yokosuka_server.Store.History.Books.{run-Kept}
use new_yokosuka_server.Store.History.Once.{credit_yen_once}
use new_yokosuka_server.Store.History.Replay.{purchase_once}

abbrev pub ryo : Character
ryo = record {
  account_id = 3;
  world_id = "dobuita";
  yen = 500;
  experience = 90;
  current_hp = 40;
  max_hp = 100;
  deleted = false;
}

abbrev pub can : ItemDefinition
can = record { max_stack = 9; usable = false; effect_kind = none; effect_value = pos 0 }

abbrev pub start : Db
start = record {
  characters = λ c. if c == 7 then some ryo else none;
  items = λ k. if str_eq k "winning_can" then some can else none;
  inventory = λ c k. none;
  economy = [];
  progression = [];
  purchases = λ c r. none;
}

abbrev bought : VendingPurchase
bought = record {
  request_id = "r1";
  machine_id = "m1";
  drink_key = "jet_cola";
  price = 100;
  winning_can = true;
  yen = 400;
  inventory = λ k. if str_eq k "winning_can" then some 1 else none;
}

can_named : ◌≢◌ {A = String} "winning_can" ""
can_named = ground (arith, eq_iff "winning_can" "")

run-IsSoundAt_example : IsSoundAt 7 "winning_can" (
    run
      (buy 7 "r1" "m1" "jet_cola" (pos 100) true ∷ consume 7 "winning_can" (pos 1) "draw" ∷ [])
      start)
run-IsSoundAt_example =
    run-IsSoundAt
      (buy 7 "r1" "m1" "jet_cola" (pos 100) true ∷ consume 7 "winning_can" (pos 1) "draw" ∷ [])
      start 7 "winning_can" ((omega arith, omega arith), omega arith)

run-Kept_example : Kept start (
    run
      (buy 7 "r1" "m1" "jet_cola" (pos 100) true ∷ consume 7 "winning_can" (pos 1) "draw" ∷ [])
      start)
run-Kept_example =
    run-Kept
      (buy 7 "r1" "m1" "jet_cola" (pos 100) true ∷ consume 7 "winning_can" (pos 1) "draw" ∷ [])
      start (tt, (can_named, tt))

pay_named : ◌≢◌ {A = String} "pay" ""
pay_named = ground (arith, eq_iff "pay" "")

credited : (credit_yen 7 (pos 30) "pay" "work" start).0 ≡ ok 530
unfolding credit_yen credit_yen_tx transact require_positive ◌>>=◌ record_economy_event add_yen
    has_event
credited = refl

credit_yen_once_example :
    credit_yen 7 (pos 30) "pay" "late" (run (credit 7 (pos 30) "pay" "work" ∷ []) start)
    ≡ (err duplicate_event, run (credit 7 (pos 30) "pay" "work" ∷ []) start)
credit_yen_once_example =
    credit_yen_once 7 (pos 30) "pay" "work" start 530 [] 29 "late" pay_named credited

sold : (purchase_vending_drink 7 " r1" "m1" "jet_cola" (pos 100) true start).0 ≡ ok bought
unfolding purchase_vending_drink checked_purchase purchase_tx existing_purchase serve_request
    new_purchase take_yen grant_winning_can insert_purchase inventory_of transact require_positive
    ◌>>=◌ record_economy_event has_event trim_space
sold = refl

abbrev buyer : Character
buyer = record ryo { yen = 400 }

after_sale : (run (buy 7 " r1" "m1" "jet_cola" (pos 100) true ∷ []) start).characters 7 ≡ some buyer
unfolding run step purchase_vending_drink checked_purchase purchase_tx existing_purchase
    serve_request new_purchase take_yen grant_winning_can insert_purchase inventory_of transact
    require_positive ◌>>=◌ record_economy_event has_event trim_space
after_sale = refl

purchase_once_example :
    purchase_vending_drink 7 " r1" "m1" "jet_cola"
      (pos 100)
      false
      (run (buy 7 " r1" "m1" "jet_cola" (pos 100) true ∷ []) start)
    ≡ (
      ok (record bought {
        yen = 400;
        inventory = (run (buy 7 " r1" "m1" "jet_cola" (pos 100) true ∷ []) start).inventory 7;
      }),
      run (buy 7 " r1" "m1" "jet_cola" (pos 100) true ∷ []) start,
    )
purchase_once_example =
    purchase_once 7 " r1" "m1" "jet_cola" (pos 100) true start bought [] 99 false buyer sold
      after_sale refl

abbrev served : Db
served = run (buy 7 " r1" "m1" "jet_cola" (pos 100) true ∷ []) start

abbrev cola : PurchaseRow
cola = record { machine_id = "m1"; drink_key = "jet_cola"; price = 100; winning_can = true }

cola_recorded : served.purchases 7 "r1" ≡ some cola
unfolding run step purchase_vending_drink checked_purchase purchase_tx existing_purchase
    serve_request new_purchase take_yen grant_winning_can insert_purchase inventory_of transact
    require_positive ◌>>=◌ record_economy_event has_event trim_space
cola_recorded = refl

cola_booked : has_event 7 "vending:r1" served.economy ≡ true
unfolding run step purchase_vending_drink checked_purchase purchase_tx existing_purchase
    serve_request new_purchase take_yen grant_winning_can insert_purchase inventory_of transact
    require_positive ◌>>=◌ record_economy_event has_event trim_space
cola_booked = refl

run_keeps_records_example :
    ((run (consume 7 "winning_can" (pos 1) "draw" ∷ []) served).purchases 7 "r1" ≡ some cola)
    × (has_event 7 "vending:r1" (run (consume 7 "winning_can" (pos 1) "draw" ∷ []) served).economy
        ≡ true)
run_keeps_records_example =
    run_keeps_records (consume 7 "winning_can" (pos 1) "draw" ∷ []) served 7 "r1" cola 7
      "vending:r1" cola_recorded cola_booked

purchase_charges_example :
    (pos bought.price ≡ pos 100)
    × (yen_at (start.characters 7) ≡ bought.yen + bought.price)
    × (yen_at ((purchase_vending_drink 7 " r1" "m1" "jet_cola" (pos 100) true start).1.characters 7)
        ≡ bought.yen)
purchase_charges_example =
    purchase_charges 7 " r1" "m1" "jet_cola" (pos 100) true start bought refl sold
