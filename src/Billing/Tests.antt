-- ===== src/Billing/Tests.antt =====
-- The theorems on bills at a concrete till: tea at 12.50 listed and 10.00 printed, two cups, and a
-- coffee made to order at 20.00.
use rch.Prelude.{
  ◌≡◌, refl, true, none, some, [], ◌∷◌, map, filter, ◌*◌, pos, ◌+ℤ◌, one, sum_of, All,
  if◌then◌else◌, ◌==◌,
}
use rch.Catalog.{mrp_good, mto, Item, outlet_type, Master, StockMap, RsvMap, OvrMap, Prices}
use rch.Billing.{Cart, plan_bill, price_of}
use rch.Billing.Plan.{line_of, move_of, moves_stock, off_of, gross_of, IsPriced, plan_bill_lem}

abbrev tea : Item
tea = record { t = mrp_good; gst = 5 * one; mrp = some (pos (10 * one)); src = none }

abbrev coffee : Item
coffee = record { t = mto; gst = 5 * one; mrp = none; src = none }

abbrev till : Master
till = record {
  items = λ it. if it == 1 then some tea else if it == 2 then some coffee else none;
  locations = λ l. some (record { type = outlet_type; list = some 7; active = true });
}

abbrev listed_prices : Prices
listed_prices list it = if it == 1 then some (pos 12_500_000_000) else some (pos (20 * one))

abbrev order : Cart
order = (1, pos (2 * one)) ∷ (2, pos one) ∷ []

plan_bill_lem_example :
    ((plan_bill till listed_prices 5 (10 * one) order).lines
      ≡ map (line_of till listed_prices 5 (10 * one)) order)
    × ((plan_bill till listed_prices 5 (10 * one) order).moves
        ≡ map
            (move_of till listed_prices 5 (10 * one))
            (filter (moves_stock till listed_prices 5 (10 * one)) order))
    × ((plan_bill till listed_prices 5 (10 * one) order).disc
        ≡ sum_of (off_of till listed_prices 5 (10 * one)) order)
    × ((plan_bill till listed_prices 5 (10 * one) order).tot
          +ℤ (plan_bill till listed_prices 5 (10 * one) order).disc
        ≡ sum_of (gross_of till listed_prices 5 (10 * one)) order)
plan_bill_lem_example = plan_bill_lem till listed_prices 5 (10 * one) order

order-IsPriced : All (λ line. IsPriced (gross_of till listed_prices 5 (10 * one) line)) order
unfolding price_of
order-IsPriced = ((20 * one, refl, refl), ((20 * one, refl, refl), tt))

abbrev shelf : StockMap
shelf l it = some (pos (3 * one))

abbrev none_held : RsvMap
none_held l it = none

abbrev all_on : OvrMap
all_on l it = none
