-- ===== src/Billing/Rates.antt =====
-- Prices and discounts: packages/domain/src/pricing.ts and discount.ts.
use native.Mathlib.Nat.{mul-le-mul, le_refl}
use rch.Prelude.{
  ◌%◌, round2-IsCenti, ℕ, ◌*◌, ◌/◌, ◌≤◌, ◌≡◌, arith, pos, ◌≤ℤ◌, one, centi, round2, IsCenti,
}
use rch.Billing.{discount_on, percent_of}

percent_of_pos : (amount pct : ℕ) → percent_of (pos amount) pct ≡ pos (amount * pct / (100 * one))
percent_of_pos amount pct = ground arith

percent-le : (amount pct : ℕ) → pct ≤ 100 * one → amount * pct / (100 * one) ≤ amount
percent-le amount pct h = omega (arith, mul-le-mul (le_refl amount) h)

round2_pos_bounds :
    (n amount : ℕ)
    → n ≤ amount
    → amount % centi ≡ 0
    → (pos 0 ≤ℤ round2 (pos n)) × (round2 (pos n) ≤ℤ pos amount)
unfolding round2
round2_pos_bounds n amount h exact = (omega arith, omega arith)

-- A discount of at most a hundred per cent on whole paise is not negative and not above the
-- amount, and comes in whole paise.
pub discount_on_bounds :
    (amount pct : ℕ)
    → amount % centi ≡ 0
    → pct ≤ 100 * one
    → (pos 0 ≤ℤ discount_on (pos amount) pct)
      × (discount_on (pos amount) pct ≤ℤ pos amount)
      × IsCenti (discount_on (pos amount) pct)
unfolding discount_on
discount_on_bounds amount pct exact h =
    let (low, high) = round2_pos_bounds _ amount (percent-le amount pct h) exact in
    rw (percent_of_pos amount pct) (low, high, round2-IsCenti (pos (amount * pct / (100 * one))))
