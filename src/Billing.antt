-- ===== src/Billing.antt =====
-- What a sale costs: packages/domain/src/pricing.ts, discount.ts, availability.ts and billing.ts.
pub mod Rates
pub mod Plan
pub mod Shelf
mod Tests
use rch.Prelude.{
  ℕ, ◌+◌, ◌*◌, ◌/◌, ◌≡◌, Bool, true, false, ◌&&◌, Option, none, some, List, [], ◌∷◌, ◌++◌, ◌==◌,
  if◌then◌else◌, ℤ, pos, pos_part, neg_part, sub_ℕ, ◌+ℤ◌, ◌-ℤ◌, ltb_ℤ, leb_ℤ, one, round2,
}
use rch.Catalog.{
  ItemType, mto, item_type_code, Item, Location, Master, StockMap, RsvMap, OvrMap, Prices, avail,
  is_on_off, kitchen_key,
}

pub record Price : Type 0 where
  pub p : ℤ
  pub listed : ℤ
  pub capped : Bool

abbrev pub no_price : Price
no_price = record { p = pos 0; listed = pos 0; capped = false }

abbrev pub list_of : Option Location → Option ℕ
list_of none = none
list_of (some l) = l.list

abbrev pub mrp_of : Option Item → Option ℤ
mrp_of none = none
mrp_of (some item) = item.mrp

-- `mrp != null && listed > mrp`
abbrev pub cap_at : Option ℤ → ℤ → Price
cap_at none listed = record { p = listed; listed = listed; capped = false }
cap_at (some mrp) listed =
    if ltb_ℤ mrp listed
    then record { p = mrp; listed = listed; capped = true }
    else record { p = listed; listed = listed; capped = false }

abbrev price_on : Option ℤ → Option ℤ → Price
price_on mrp none = no_price
price_on mrp (some listed) = cap_at mrp listed

abbrev price_at : Master → Prices → Option ℕ → ℕ → Price
price_at m prices none it = no_price
price_at m prices (some list) it = price_on (mrp_of (m.items it)) (prices list it)

unfoldable pub price_of : Master → Prices → ℕ → ℕ → Price
price_of m prices l it = price_at m prices (list_of (m.locations l)) it

-- A product of two numbers, exact to the billionth.
abbrev pub times : ℤ → ℤ → ℤ
times a b =
    sub_ℕ ((pos_part a * pos_part b + neg_part a * neg_part b) / one)
      ((pos_part a * neg_part b + neg_part a * pos_part b) / one)

-- A percentage of an amount, before rounding.
abbrev pub percent_of : ℤ → ℕ → ℤ
percent_of a pct = sub_ℕ (pos_part a * pct / (100 * one)) (neg_part a * pct / (100 * one))

unfoldable pub discount_on : ℤ → ℕ → ℤ
discount_on amount pct = round2 (percent_of amount pct)

unfoldable pub discount_pct_for : ℕ → Option ℕ → ℕ
discount_pct_for class_pct none = class_pct
discount_pct_for class_pct (some person_pct) = person_pct

unfoldable pub credit_limit_for : Option ℤ → Option ℤ → Option ℤ
credit_limit_for class_limit none = class_limit
credit_limit_for class_limit (some person_limit) = some person_limit

-- `amt / (1 + gst / 100)`, cut at the billionth.
abbrev pub before_tax : ℤ → ℕ → ℤ
before_tax amt gst =
    sub_ℕ (pos_part amt * (100 * one) / (100 * one + gst))
      (neg_part amt * (100 * one) / (100 * one + gst))

abbrev pub gst_of : Option Item → ℕ
gst_of none = 0
gst_of (some item) = item.gst

-- `m.items[it]?.t === "MTO"`
abbrev pub is_mto : Option Item → Bool
is_mto none = false
is_mto (some item) = item_type_code item.t == 4

pub record BillLine : Type 0 where
  pub it : ℕ
  pub qty : ℤ
  pub rate : ℤ

pub record ShelfMove : Type 0 where
  pub loc : ℕ
  pub it : ℕ
  pub qty : ℤ

pub record BillPlan : Type 0 where
  pub lines : List BillLine
  pub tot : ℤ
  pub disc : ℤ
  pub tax : ℤ
  pub moves : List ShelfMove

-- A cart is read by `Object.keys`: each item once, with its quantity.
abbrev pub Cart : Type 0
Cart = List (ℕ × ℤ)

module _ (m : Master) (prices : Prices) (l : ℕ) (pct : ℕ) where
  -- One turn of the loop.
  unfoldable pub bill_line : BillPlan → ℕ × ℤ → BillPlan
  bill_line s (it, n) =
      let price = price_of m prices l it in
      let gross = times price.p n in
      let off = discount_on gross pct in
      let amt = gross -ℤ off in
      record {
        lines = s.lines ++ record { it = it; qty = n; rate = price.p } ∷ [];
        tot = s.tot +ℤ amt;
        disc = s.disc +ℤ off;
        tax = s.tax +ℤ (amt -ℤ before_tax amt (gst_of (m.items it)));
        moves =
            if is_mto (m.items it)
            then s.moves
            else s.moves ++ record { loc = l; it = it; qty = pos 0 -ℤ n } ∷ [];
      }

  unfoldable pub bill_lines : BillPlan → Cart → BillPlan
  bill_lines s [] = s
  bill_lines s (line ∷ cart) = bill_lines (bill_line s line) cart

  unfoldable pub plan_bill : Cart → BillPlan
  plan_bill cart =
      bill_lines (record { lines = []; tot = pos 0; disc = pos 0; tax = pos 0; moves = [] }) cart

-- Why an item cannot be sold: the kitchen's switch, the counter's own reason, or an empty shelf.
pub data Why : Type 0 where
  kitchen_off zero_here : Why
  switched_off : ℕ → Why

pub data Availability : Type 0 where
  manual_on : Availability
  in_stock : ℤ → Availability
  off : Why → Availability

abbrev pub switched : OvrMap → ℕ → ℕ → Bool
switched ovr l it = elim (ovr l it) [ none ↦ false | some reason ↦ true ]

abbrev stocked : Bool → ℤ → Availability
stocked true have = manual_on
stocked false have = if leb_ℤ (pos one) have then in_stock have else off zero_here

abbrev own_switch : Option ℕ → Bool → ℤ → Availability
own_switch (some reason) made have = off (switched_off reason)
own_switch none made have = stocked made have

unfoldable pub avail_of : Master → StockMap → RsvMap → OvrMap → ℕ → ℕ → Availability
avail_of m stock rsv ovr l it =
    if is_on_off (m.items it) && switched ovr kitchen_key it
    then off kitchen_off
    else own_switch (ovr l it) (is_mto (m.items it)) (avail stock rsv l it)
