-- ===== src/Prelude/Round.antt =====
-- packages/domain/src/round.ts and the `round2` of discount.ts, credit.ts and settlement.ts.
-- A number of the program is an integer count of billionths, so that a price of two decimals
-- times a quantity of three times a percentage of two is exact. `Math.round` takes a half up.
use Prim.Native.Nat.{ℕ, ◌+◌, ◌*◌, ◌/◌, ◌%◌}
use mathlib.Core.Path.{◌≡◌}
use native.Mathlib.Omega.{arith}
use rch.Prelude.Int.{ℤ, pos, negsuc, pos_part, neg_part, sub_ℕ, ◌+ℤ◌, ◌-ℤ◌, ◌≤ℤ◌, min_ℤ, max_ℤ}

abbrev pub one : ℕ
one = 1_000_000_000

abbrev pub milli : ℕ
milli = 1_000_000

abbrev pub centi : ℕ
centi = 10_000_000

-- `Math.round(v * 1000) / 1000`
unfoldable pub round3 : ℤ → ℤ
round3 (pos n) = pos ((n + 500_000) / milli * milli)
round3 (negsuc n) = sub_ℕ 0 ((n + 500_000) / milli * milli)

-- `Math.round(v * 100) / 100`
unfoldable pub round2 : ℤ → ℤ
round2 (pos n) = pos ((n + 5_000_000) / centi * centi)
round2 (negsuc n) = sub_ℕ 0 ((n + 5_000_000) / centi * centi)

-- A value with at most three decimals, as the columns and the request schemas keep quantities.
abbrev pub IsMilli : ℤ → Type 0
IsMilli v = (pos_part v % milli ≡ 0) × (neg_part v % milli ≡ 0)

-- A value in whole paise, as the columns keep money.
abbrev pub IsCenti : ℤ → Type 0
IsCenti v = (pos_part v % centi ≡ 0) × (neg_part v % centi ≡ 0)

pub round3_near : (v : ℤ) → (round3 v ≤ℤ v +ℤ pos 500_000) × (v ≤ℤ round3 v +ℤ pos 500_000)
unfolding round3 ◌+ℤ◌
round3_near (pos n) = ground arith
round3_near (negsuc n) = ground arith

pub round3-IsMilli : (v : ℤ) → IsMilli (round3 v)
unfolding round3
round3-IsMilli (pos n) = ground arith
round3-IsMilli (negsuc n) = ground arith

pub round3_self : (v : ℤ) → IsMilli v → round3 v ≡ v
unfolding round3
round3_self (pos n) h = ground arith
round3_self (negsuc n) h = ground arith

pub round2-IsCenti : (v : ℤ) → IsCenti (round2 v)
unfolding round2
round2-IsCenti (pos n) = ground arith
round2-IsCenti (negsuc n) = ground arith

pub round2_self : (v : ℤ) → IsCenti v → round2 v ≡ v
unfolding round2
round2_self (pos n) h = ground arith
round2_self (negsuc n) h = ground arith

pub round2_near : (v : ℤ) → (round2 v ≤ℤ v +ℤ pos 5_000_000) × (v ≤ℤ round2 v +ℤ pos 5_000_000)
unfolding round2 ◌+ℤ◌
round2_near (pos n) = ground arith
round2_near (negsuc n) = ground arith

pub add-IsMilli : (a b : ℤ) → IsMilli a → IsMilli b → IsMilli (a +ℤ b)
unfolding ◌+ℤ◌
add-IsMilli a b ha hb = ground arith

pub sub-IsMilli : (a b : ℤ) → IsMilli a → IsMilli b → IsMilli (a -ℤ b)
unfolding ◌-ℤ◌
sub-IsMilli a b ha hb = ground arith

pub min-IsMilli : (a b : ℤ) → IsMilli a → IsMilli b → IsMilli (min_ℤ a b)
unfolding min_ℤ
min-IsMilli a b ha hb = ground arith

pub max-IsMilli : (a b : ℤ) → IsMilli a → IsMilli b → IsMilli (max_ℤ a b)
unfolding max_ℤ
max-IsMilli a b ha hb = ground arith

pub add-IsCenti : (a b : ℤ) → IsCenti a → IsCenti b → IsCenti (a +ℤ b)
unfolding ◌+ℤ◌
add-IsCenti a b ha hb = ground arith

pub sub-IsCenti : (a b : ℤ) → IsCenti a → IsCenti b → IsCenti (a -ℤ b)
unfolding ◌-ℤ◌
sub-IsCenti a b ha hb = ground arith

pub min-IsCenti : (a b : ℤ) → IsCenti a → IsCenti b → IsCenti (min_ℤ a b)
unfolding min_ℤ
min-IsCenti a b ha hb = ground arith
