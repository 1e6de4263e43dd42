-- ===== src/Prelude/Int.antt =====
-- Signed integers over the native numbers, under the library's names.
use Prim.Native.Nat.{ℕ, suc, ◌+◌, ◌-◌, ◌*◌, ◌≤◌}
use mathlib.Core.Path.{◌≡◌}
use mathlib.Core.Logic.{◌⊎◌}
use mathlib.Core.Bool.{Bool, true, false}
use native.Mathlib.Omega.{arith}
use rch.Prelude.Tests.{ltb, leb, ◌==◌, if◌then◌else◌}

-- `negsuc n` is -(n + 1).
pub data ℤ : Type 0 where
  pos : ℕ → ℤ
  negsuc : ℕ → ℤ

abbrev pub pos_part : ℤ → ℕ
pos_part (pos n) = n
pos_part (negsuc n) = 0

abbrev pub neg_part : ℤ → ℕ
neg_part (pos n) = 0
neg_part (negsuc n) = suc n

-- a - b, as an integer.
abbrev pub sub_ℕ : ℕ → ℕ → ℤ
sub_ℕ a b = if leb b a then pos (a - b) else negsuc (b - a - 1)

infixl 65 ◌+ℤ◌ ◌-ℤ◌
infixl 70 ◌*ℤ◌
infix 50 ◌≤ℤ◌ ◌<ℤ◌ ◌==ℤ◌
unfoldable pub ◌+ℤ◌ : ℤ → ℤ → ℤ
a +ℤ b = sub_ℕ (pos_part a + pos_part b) (neg_part a + neg_part b)

unfoldable pub ◌-ℤ◌ : ℤ → ℤ → ℤ
a -ℤ b = sub_ℕ (pos_part a + neg_part b) (neg_part a + pos_part b)

unfoldable pub ◌*ℤ◌ : ℤ → ℤ → ℤ
a *ℤ b =
    sub_ℕ (pos_part a * pos_part b + neg_part a * neg_part b)
      (pos_part a * neg_part b + neg_part a * pos_part b)

abbrev pub ◌≤ℤ◌ : ℤ → ℤ → Type 0
a ≤ℤ b = pos_part a + neg_part b ≤ pos_part b + neg_part a

abbrev pub ◌<ℤ◌ : ℤ → ℤ → Type 0
a <ℤ b = suc (pos_part a + neg_part b) ≤ pos_part b + neg_part a

abbrev pub ltb_ℤ : ℤ → ℤ → Bool
ltb_ℤ a b = ltb (pos_part a + neg_part b) (pos_part b + neg_part a)

abbrev pub leb_ℤ : ℤ → ℤ → Bool
leb_ℤ a b = leb (pos_part a + neg_part b) (pos_part b + neg_part a)

abbrev pub ◌==ℤ◌ : ℤ → ℤ → Bool
a ==ℤ b = (pos_part a + neg_part b) == (pos_part b + neg_part a)

-- `Math.min` and `Math.max`.
unfoldable pub min_ℤ : ℤ → ℤ → ℤ
min_ℤ a b = if leb_ℤ a b then a else b

unfoldable pub max_ℤ : ℤ → ℤ → ℤ
max_ℤ a b = if leb_ℤ a b then b else a

-- With one lemma for each operation `omega` works with the operations shut, at any depth.
pub +ℤ_parts :
    (a b : ℤ)
    → pos_part (a +ℤ b) + neg_part a + neg_part b ≡ neg_part (a +ℤ b) + pos_part a + pos_part b
unfolding ◌+ℤ◌
+ℤ_parts a b = ground arith

pub -ℤ_parts :
    (a b : ℤ)
    → pos_part (a -ℤ b) + neg_part a + pos_part b ≡ neg_part (a -ℤ b) + pos_part a + neg_part b
unfolding ◌-ℤ◌
-ℤ_parts a b = ground arith

abbrev pub EqParts : ℤ → ℤ → Type 0
EqParts a b = pos_part a + neg_part b ≡ pos_part b + neg_part a

pub eq_of_parts : (a b : ℤ) → EqParts a b → a ≡ b
eq_of_parts a b h = ground arith

pub min_ℤ_parts :
    (a b : ℤ) → (EqParts (min_ℤ a b) a × (a ≤ℤ b)) ⊎ (EqParts (min_ℤ a b) b × (b ≤ℤ a))
unfolding min_ℤ
min_ℤ_parts a b = ground arith

pub max_ℤ_parts :
    (a b : ℤ) → (EqParts (max_ℤ a b) b × (a ≤ℤ b)) ⊎ (EqParts (max_ℤ a b) a × (b ≤ℤ a))
unfolding max_ℤ
max_ℤ_parts a b = ground arith

pub ruleset int_laws = (arith, +ℤ_parts, -ℤ_parts, eq_of_parts, min_ℤ_parts, max_ℤ_parts)

-- The tests, as `omega` reads them.
pub le_of_not_ltb : (a b : ℤ) → ltb_ℤ a b ≡ false → b ≤ℤ a
le_of_not_ltb a b h = ground arith

pub lt_of_ltb : (a b : ℤ) → ltb_ℤ a b ≡ true → a <ℤ b
lt_of_ltb a b h = ground arith

pub le_of_leb : (a b : ℤ) → leb_ℤ a b ≡ true → a ≤ℤ b
le_of_leb a b h = ground arith

pub lt_of_not_leb : (a b : ℤ) → leb_ℤ a b ≡ false → b <ℤ a
lt_of_not_leb a b h = ground arith

pub parts_of_eq : (a b : ℤ) → a ≡ b → EqParts a b
parts_of_eq a b h = ground arith

pub not_ltb : (a b : ℤ) → b ≤ℤ a → ltb_ℤ a b ≡ false
not_ltb a b h = ground arith

pub leb_of_le : (a b : ℤ) → a ≤ℤ b → leb_ℤ a b ≡ true
leb_of_le a b h = ground arith
