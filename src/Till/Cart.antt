-- ===== src/Till/Cart.antt =====
-- The cart of a sale, each item once: `cartOf` of apps/api/src/lib/sale.ts, and the fold of what a
-- sale takes off the shelf.
use rch.Prelude.{
  ℕ, ◌≡◌, refl, inl, inr, Bool, true, false, List, [], ◌∷◌, ◌==◌, ==_iff, if◌then◌else◌, Bool-cases,
  filter, every, All, arith, ℤ, pos, ◌+ℤ◌, ◌≤ℤ◌, leb_ℤ, le_of_leb, int_laws, round3, round3-IsMilli,
  IsMilli, sum_of,
}
use rch.Ledger.Cache.{round3_shift}
use rch.Billing.{Cart}
use rch.Till.Menu.{add_to, cart_from, cart_of}

abbrev pub is_for : ℕ → ℕ × ℤ → Bool
is_for it (k, n) = k == it

-- What a cart holds of an item.
abbrev pub total_of : ℕ → Cart → ℤ
total_of it cart = sum_of (λ (k, n). n) (filter (is_for it) cart)

-- What a list of scans adds to an item, each at three decimals.
abbrev pub scanned : ℕ → List (ℕ × ℤ) → ℤ
scanned it lines = sum_of (λ (k, q). round3 q) (filter (is_for it) lines)

abbrev pub IsMilliCart : Cart → Type 0
IsMilliCart cart = All (λ (k, n). IsMilli n) cart

abbrev Fresh : ℕ → Cart → Type 0
Fresh it cart = All (λ line. is_for it line ≡ false) cart

-- No item stands in the cart twice.
abbrev pub IsKeyed : Cart → Type 0
IsKeyed [] = Unit
IsKeyed ((k, n) ∷ cart) = Fresh k cart × IsKeyed cart

round3_from_nothing : (q : ℤ) → round3 (pos 0 +ℤ q) ≡ round3 q
round3_from_nothing q = let plain : pos 0 +ℤ q ≡ q = omega int_laws in rw plain refl

pub add_to-IsMilliCart :
    (it : ℕ) (q : ℤ) (cart : Cart) → IsMilliCart cart → IsMilliCart (add_to it q cart)
unfolding add_to
add_to-IsMilliCart it q [] h = (round3-IsMilli (pos 0 +ℤ q), tt)
add_to-IsMilliCart it q ((k, n) ∷ cart) (hn, h) = elim (Bool-cases (k == it)) [
  | inl e ↦ rw e (round3-IsMilli (n +ℤ q), h)
  | inr e ↦ rw e (hn, add_to-IsMilliCart it q cart h)
]

-- One more scan of an item adds to the item and to no other.
pub total_of-add_to :
    (i it : ℕ) (q : ℤ) (cart : Cart)
    → IsMilliCart cart
    → total_of i (add_to it q cart) ≡ total_of i cart +ℤ (if it == i then round3 q else pos 0)
unfolding add_to
total_of-add_to i it q [] h = elim (Bool-cases (it == i)) [
  | inl e ↦ rw (e, round3_from_nothing q) (omega int_laws)
  | inr e ↦ rw e (omega int_laws)
]
total_of-add_to i it q ((k, n) ∷ cart) (hn, h) = elim (Bool-cases (k == it)) [
  | inl e ↦
      let same : k ≡ it = (==_iff k it).0 e in
      elim (Bool-cases (it == i)) [
        | inl f ↦ rw (e, same, f, round3_shift n q hn) (omega int_laws)
        | inr f ↦ rw (e, same, f) (omega int_laws)
      ]
  | inr e ↦
      let ih = total_of-add_to i it q cart h in
      elim (Bool-cases (k == i)) [
        | inl f ↦ rw (e, f, ih) (omega int_laws)
        | inr f ↦ rw (e, f, ih) refl
      ]
]

Fresh-add_to :
    (j it : ℕ) (q : ℤ) (cart : Cart) → (it == j) ≡ false → Fresh j cart → Fresh j (add_to it q cart)
unfolding add_to
Fresh-add_to j it q [] e h = (e, tt)
Fresh-add_to j it q ((k, n) ∷ cart) e (hk, h) = elim (Bool-cases (k == it)) [
  | inl f ↦ rw f (hk, h)
  | inr f ↦ rw f (hk, Fresh-add_to j it q cart e h)
]

pub add_to-IsKeyed : (it : ℕ) (q : ℤ) (cart : Cart) → IsKeyed cart → IsKeyed (add_to it q cart)
unfolding add_to
add_to-IsKeyed it q [] h = (tt, tt)
add_to-IsKeyed it q ((k, n) ∷ cart) (hk, h) = elim (Bool-cases (k == it)) [
  | inl e ↦ rw e (hk, h)
  | inr e ↦ rw e (Fresh-add_to k it q cart (ground arith) hk, add_to-IsKeyed it q cart h)
]

pub total_of-Fresh : (it : ℕ) (cart : Cart) → Fresh it cart → total_of it cart ≡ pos 0
total_of-Fresh it [] h = refl
total_of-Fresh it ((k, n) ∷ cart) (e, h) = rw e (total_of-Fresh it cart h)

weaken :
    (k : ℕ) (n : ℤ) (cart rest : Cart)
    → Fresh k rest
    → All (λ (j, q). total_of j cart ≡ q) rest
    → All (λ (j, q). total_of j ((k, n) ∷ cart) ≡ q) rest
weaken k n cart [] f h = tt
weaken k n cart ((j, q) ∷ rest) (e, f) (hj, h) =
    let apart : (k == j) ≡ false = ground arith in (rw (apart, hj) refl, weaken k n cart rest f h)

-- Where no item stands twice, every line holds all that there is of its item.
pub line_totals : (cart : Cart) → IsKeyed cart → All (λ (k, n). total_of k cart ≡ n) cart
line_totals [] h = tt
line_totals ((k, n) ∷ cart) (f, h) =
    let same = (==_iff k k).1 refl in
    (
      rw (same, total_of-Fresh k cart f) (omega int_laws),
      weaken k n cart cart f (line_totals cart h),
    )

pub total_of-bound :
    (room : ℕ → ℤ) (cart : Cart)
    → IsKeyed cart
    → every (λ (k, n). leb_ℤ n (room k)) cart ≡ true
    → (it : ℕ) → pos 0 ≤ℤ room it
    → total_of it cart ≤ℤ room it
total_of-bound room [] keyed h it low = low
total_of-bound room ((k, n) ∷ cart) (f, keyed) h it low = elim (Bool-cases (k == it)) [
  | inl e ↦
      let same : k ≡ it = (==_iff k it).0 e in
      let fits : n ≤ℤ room k = le_of_leb n (room k) (ground arith) in
      let rest : total_of it cart ≡ pos 0 = rw (← same) (total_of-Fresh k cart f) in
      let fits' : n ≤ℤ room it = rw (← same) fits in rw (e, rest) (omega (int_laws, fits'))
  | inr e ↦ rw e (total_of-bound room cart keyed (ground arith) it low)
]

cart_from_lem :
    (cart : Cart) (lines : List (ℕ × ℤ))
    → IsMilliCart cart
    → IsKeyed cart
    → IsKeyed (cart_from cart lines)
      × IsMilliCart (cart_from cart lines)
      × ((it : ℕ) → total_of it (cart_from cart lines) ≡ total_of it cart +ℤ scanned it lines)
unfolding cart_from
cart_from_lem cart [] h keyed = (keyed, h, λ it. omega int_laws)
cart_from_lem cart ((k, q) ∷ lines) h keyed =
    let (keyed', milli, sums) =
      cart_from_lem (add_to k q cart) lines (add_to-IsMilliCart k q cart h)
        (add_to-IsKeyed k q cart keyed) in
    (
      keyed',
      milli,
      λ it. elim (Bool-cases (k == it)) [
        | inl e ↦ rw (sums it, total_of-add_to it k q cart h, e) (omega int_laws)
        | inr e ↦ rw (sums it, total_of-add_to it k q cart h, e) (omega int_laws)
      ],
    )

-- A cart holds every item once, at three decimals, and of every item the sum of its scans, each at
-- three decimals, in whatever order and in however many scans they came.
pub cart_of_lem :
    (lines : List (ℕ × ℤ))
    → IsKeyed (cart_of lines)
      × IsMilliCart (cart_of lines)
      × ((it : ℕ) → total_of it (cart_of lines) ≡ scanned it lines)
unfolding cart_of
cart_of_lem lines =
    let (keyed, milli, sums) = cart_from_lem [] lines tt tt in
    (keyed, milli, λ it. rw (sums it) (omega int_laws))
