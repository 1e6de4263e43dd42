-- ===== src/Billing/Plan.antt =====
-- What a bill adds up to and what it takes off the shelf: packages/domain/src/billing.ts.
use rch.Billing.Rates.{discount_on_bounds}
use rch.Prelude.{
  ◌%◌, one, centi, All, ℕ, ◌*◌, ◌≤◌, ◌≡◌, refl, Bool, true, false, List, [], ◌∷◌, ◌++◌, map, arith,
  filter, if◌then◌else◌, not, ℤ, pos, ◌+ℤ◌, ◌-ℤ◌, ◌≤ℤ◌, int_laws, sum_of, parts_of_eq,
}
use mathlib.Core.List.{append_assoc, append-nil}
use rch.Catalog.{Master, Prices}
use rch.Billing.{
  BillLine, ShelfMove, BillPlan, Cart, bill_line, bill_lines, plan_bill, times, price_of,
  discount_on, is_mto,
}

module _ (m : Master) (prices : Prices) (l pct : ℕ) where
  -- What a line is worth at the till price.
  abbrev pub gross_of : ℕ × ℤ → ℤ
  gross_of (it, n) = times (price_of m prices l it).p n

  abbrev pub off_of : ℕ × ℤ → ℤ
  off_of line = discount_on (gross_of line) pct

  abbrev pub line_of : ℕ × ℤ → BillLine
  line_of (it, n) = record { it = it; qty = n; rate = (price_of m prices l it).p }

  abbrev pub moves_stock : ℕ × ℤ → Bool
  moves_stock (it, n) = not (is_mto (m.items it))

  abbrev pub move_of : ℕ × ℤ → ShelfMove
  move_of (it, n) = record { loc = l; it = it; qty = pos 0 -ℤ n }

  abbrev AddsTo : BillPlan → Cart → BillPlan → Type 0
  AddsTo s cart out =
      (out.lines ≡ s.lines ++ map line_of cart)
      × (out.moves ≡ s.moves ++ map move_of (filter moves_stock cart))
      × (out.disc ≡ s.disc +ℤ sum_of off_of cart)
      × (out.tot +ℤ out.disc ≡ s.tot +ℤ s.disc +ℤ sum_of gross_of cart)

  moves-step :
      (made : Bool) (before out rest : List ShelfMove) (mv : ShelfMove)
      → out ≡ (if made then before else before ++ mv ∷ []) ++ rest
      → out ≡ before ++ (if not made then mv ∷ rest else rest)
  moves-step true before out rest mv e = e
  moves-step false before out rest mv e = rw (e, append_assoc)

  map-test :
      (b : Bool) (line : ℕ × ℤ) (cart : Cart)
      → map move_of (if b then line ∷ cart else cart)
        ≡ (if b then move_of line ∷ map move_of cart else map move_of cart)
  map-test true line cart = refl
  map-test false line cart = refl

  bill_lines-AddsTo :
      (s : BillPlan) (cart : Cart) → AddsTo s cart (bill_lines m prices l pct s cart)
  unfolding bill_lines bill_line
  bill_lines-AddsTo s [] = (rw append-nil, rw append-nil, omega int_laws, omega int_laws)
  bill_lines-AddsTo s ((it, n) ∷ cart) =
      let (lines, moves, disc, gross) =
        bill_lines-AddsTo (bill_line m prices l pct s (it, n)) cart in
      (
        rw (lines, append_assoc),
        rw (map-test (not (is_mto (m.items it))) (it, n) (filter moves_stock cart))
            (moves-step (is_mto (m.items it)) s.moves _ _ _ moves),
        rw disc (omega int_laws),
        rw gross (omega int_laws),
      )

-- A bill has a line for every item of the cart, at the till price; total and discount together are
-- the cart at the till prices, the discount is the sum of the discounts on the lines, and the
-- shelf gives up exactly the items that are not made to order.
pub plan_bill_lem :
    (m : Master) (prices : Prices) (l pct : ℕ) (cart : Cart)
    → let plan = plan_bill m prices l pct cart in
      (plan.lines ≡ map (line_of m prices l pct) cart)
      × (plan.moves ≡ map (move_of m prices l pct) (filter (moves_stock m prices l pct) cart))
      × (plan.disc ≡ sum_of (off_of m prices l pct) cart)
      × (plan.tot +ℤ plan.disc ≡ sum_of (gross_of m prices l pct) cart)
unfolding plan_bill
plan_bill_lem m prices l pct cart =
    let (lines, moves, disc, gross) = bill_lines-AddsTo m prices l pct _ cart in
    (lines, moves, rw disc (omega int_laws), rw gross (omega int_laws))

-- A line that is worth whole paise and not less than nothing.
abbrev pub IsPriced : ℤ → Type 0
IsPriced v = (n : ℕ) × (v ≡ pos n) × (n % centi ≡ 0)

discounts_within :
    (m : Master) (prices : Prices) (l pct : ℕ) (cart : Cart)
    → pct ≤ 100 * one
    → All (λ line. IsPriced (gross_of m prices l pct line)) cart
    → (pos 0 ≤ℤ sum_of (off_of m prices l pct) cart)
      × (sum_of (off_of m prices l pct) cart ≤ℤ sum_of (gross_of m prices l pct) cart)
discounts_within m prices l pct [] h p = (omega arith, omega arith)
discounts_within m prices l pct (line ∷ cart) h ((n, e, exact), ps) =
    let (low, high, _) = discount_on_bounds n pct exact h in
    let (low', high') = discounts_within m prices l pct cart h ps in
    rw e (omega (int_laws, low, low'), omega (int_laws, high, high'))

-- With a discount of at most a hundred per cent, on lines worth whole paise and not less than
-- nothing, neither the discount nor the total is below zero.
pub plan_bill_nonneg :
    (m : Master) (prices : Prices) (l pct : ℕ) (cart : Cart)
    → pct ≤ 100 * one
    → All (λ line. IsPriced (gross_of m prices l pct line)) cart
    → let plan = plan_bill m prices l pct cart in (pos 0 ≤ℤ plan.disc) × (pos 0 ≤ℤ plan.tot)
plan_bill_nonneg m prices l pct cart h priced =
    let plan = plan_bill m prices l pct cart in
    let (low, high) = discounts_within m prices l pct cart h priced in
    let (_, _, disc, gross) = plan_bill_lem m prices l pct cart in
    (
      omega (int_laws, low, parts_of_eq _ _ disc),
      omega (int_laws, high, parts_of_eq _ _ disc, parts_of_eq _ _ gross),
    )
