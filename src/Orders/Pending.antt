-- ===== src/Orders/Pending.antt =====
-- What moves on the procurement list, which is approved less ordered: `addOrdered` of
-- apps/api/src/lib/claims.ts.
use rch.Prelude.{
  ℕ, zero, suc, ◌≡◌, refl, ap, ◌∙◌, inl, inr, true, false, ◌&&◌, Option, none, some, List, [], ◌∷◌,
  ◌==◌, if◌then◌else◌, Bool-cases, get_elem?, arith, ℤ, pos, ◌+ℤ◌, int_laws, round3_self, IsMilli,
  add-IsMilli, sub-IsMilli,
}
use rch.Purchasing.Claims.{ClaimSrc}
use rch.Purchasing.Claims.Folding.{claim_on, Exact}
use rch.Orders.{
  PrqLine, Requisition, Sign, taken, given_back, signed, on_line, line_at, bump, bump_nth, bump_row,
  add_ordered,
}

bump_nth-at :
    (n l : ℕ) (q : ℤ) (ls : List PrqLine) {x : PrqLine}
    → get_elem? ls l ≡ some x
    → get_elem? (bump_nth n q ls) l ≡ some (if n == l then bump q x else x)
bump_nth-at n l q [] h = cc
bump_nth-at zero zero q (y ∷ ls) h = ap (λ o. elim o [ none ↦ none | some z ↦ some (bump q z) ]) h
bump_nth-at zero (suc l) q (y ∷ ls) h =
    let apart : (0 == suc l) ≡ false = ground arith in rw apart h
bump_nth-at (suc n) zero q (y ∷ ls) h =
    let apart : (suc n == 0) ≡ false = ground arith in rw apart h
bump_nth-at (suc n) (suc l) q (y ∷ ls) {x} h =
    let same : (suc n == suc l) ≡ (n == l) = ground arith in rw (bump_nth-at n l q ls h, same) refl

bump_nth-none :
    (n l : ℕ) (q : ℤ) (ls : List PrqLine)
    → get_elem? ls l ≡ none
    → get_elem? (bump_nth n q ls) l ≡ none
bump_nth-none n l q [] h = h
bump_nth-none zero zero q (y ∷ ls) h = cc
bump_nth-none zero (suc l) q (y ∷ ls) h = h
bump_nth-none (suc n) zero q (y ∷ ls) h = h
bump_nth-none (suc n) (suc l) q (y ∷ ls) h = bump_nth-none n l q ls h

bump_row-at :
    (n l : ℕ) (q : ℤ) (o : Option Requisition) {x : PrqLine}
    → on_line l o ≡ some x
    → on_line l (bump_row n q o) ≡ some (if n == l then bump q x else x)
bump_row-at n l q none h = cc
bump_row-at n l q (some r) h = bump_nth-at n l q r.lines h

bump_row-none :
    (n l : ℕ) (q : ℤ) (o : Option Requisition)
    → on_line l o ≡ none
    → on_line l (bump_row n q o) ≡ none
bump_row-none n l q none h = refl
bump_row-none n l q (some r) h = bump_nth-none n l q r.lines h

-- One delta.
abbrev pub moved_row : ClaimSrc → Sign → (ℕ → Option Requisition) → ℕ → Option Requisition
moved_row d sign rows k =
    if k == d.prq then bump_row d.line (signed sign d.qty) (rows k) else rows k

abbrev pub plus : ℤ → PrqLine → PrqLine
plus q x = record x { ordered = x.ordered +ℤ q }

signed-IsMilli : (sign : Sign) (q : ℤ) → IsMilli q → IsMilli (signed sign q)
signed-IsMilli taken q h = h
signed-IsMilli given_back q h = sub-IsMilli (pos 0) q (refl, refl) h

plus_none : (x : PrqLine) → x ≡ plus (pos 0) x
plus_none x = let same : x.ordered +ℤ pos 0 ≡ x.ordered = omega int_laws in rw same refl

-- What a delta puts on the line, with its sign.
abbrev share : ClaimSrc → Sign → ℕ → ℕ → ℤ
share d sign p l = signed sign (if (d.prq == p) && (d.line == l) then d.qty else pos 0)

signed_nothing : (sign : Sign) → signed sign (pos 0) ≡ pos 0
signed_nothing taken = refl
signed_nothing given_back = omega int_laws

moved_row-at :
    (d : ClaimSrc) (sign : Sign) (rows : ℕ → Option Requisition) (p l : ℕ) {x : PrqLine}
    → IsMilli d.qty
    → IsMilli x.ordered
    → line_at rows p l ≡ some x
    → line_at (moved_row d sign rows) p l ≡ some (plus (share d sign p l) x)
moved_row-at d sign rows p l {x} hd hx h = elim (Bool-cases (p == d.prq)) [
  | inl e ↦
      let mine : (d.prq == p) ≡ true = ground arith in
      let row : moved_row d sign rows p ≡ bump_row d.line (signed sign d.qty) (rows p) =
        rw e refl in
      let bumped = ap (on_line l) row ∙ bump_row-at d.line l (signed sign d.qty) (rows p) h in
      let exact = signed-IsMilli sign d.qty hd in
      elim (Bool-cases (d.line == l)) [
        | inl f ↦
            bumped
            ∙ rw
                (
                  mine,
                  f,
                  round3_self (signed sign d.qty) exact,
                  round3_self _ (add-IsMilli x.ordered (signed sign d.qty) hx exact),
                )
                refl
        | inr f ↦ bumped ∙ rw (mine, f, signed_nothing sign) (ap some (plus_none x))
      ]
  | inr e ↦
      let other : (d.prq == p) ≡ false = ground arith in
      let row : moved_row d sign rows p ≡ rows p = rw e refl in
      ap (on_line l) row ∙ h ∙ rw (other, signed_nothing sign) (ap some (plus_none x))
]

share-IsMilli : (d : ClaimSrc) (sign : Sign) (p l : ℕ) → IsMilli d.qty → IsMilli (share d sign p l)
share-IsMilli d sign p l h = elim (Bool-cases ((d.prq == p) && (d.line == l))) [
  | inl e ↦ rw e (signed-IsMilli sign d.qty h)
  | inr e ↦ rw (e, signed_nothing sign) (refl, refl)
]

moved_row-none :
    (d : ClaimSrc) (sign : Sign) (rows : ℕ → Option Requisition) (p l : ℕ)
    → line_at rows p l ≡ none
    → line_at (moved_row d sign rows) p l ≡ none
moved_row-none d sign rows p l h = elim (Bool-cases (p == d.prq)) [
  | inl e ↦
      let row : moved_row d sign rows p ≡ bump_row d.line (signed sign d.qty) (rows p) =
        rw e refl in
      ap (on_line l) row ∙ bump_row-none d.line l (signed sign d.qty) (rows p) h
  | inr e ↦ let row : moved_row d sign rows p ≡ rows p = rw e refl in ap (on_line l) row ∙ h
]

signed_sum : (sign : Sign) (a b : ℤ) → signed sign a +ℤ signed sign b ≡ signed sign (a +ℤ b)
signed_sum taken a b = refl
signed_sum given_back a b = omega int_laws

-- A set of deltas moves every requisition line by what it claims of the line, and touches nothing
-- else on it.
pub add_ordered-line_at :
    (ds : List ClaimSrc) (sign : Sign) (rows : ℕ → Option Requisition) (p l : ℕ) {x : PrqLine}
    → Exact ds
    → IsMilli x.ordered
    → line_at rows p l ≡ some x
    → line_at (add_ordered ds sign rows) p l ≡ some (plus (signed sign (claim_on p l ds)) x)
unfolding add_ordered
add_ordered-line_at [] sign rows p l {x} h hx e =
    rw (e, signed_nothing sign) (ap some (plus_none x))
add_ordered-line_at (d ∷ ds) sign rows p l {x} (hd, h) hx e =
    let here = (if (d.prq == p) && (d.line == l) then d.qty else pos 0) in
    let one_more = moved_row-at d sign rows p l hd hx e in
    let exact : IsMilli (x.ordered +ℤ share d sign p l) =
      add-IsMilli x.ordered _ hx (share-IsMilli d sign p l hd) in
    let rest = add_ordered-line_at ds sign (moved_row d sign rows) p l h exact one_more in
    let sum : x.ordered +ℤ share d sign p l +ℤ signed sign (claim_on p l ds)
        ≡ x.ordered +ℤ signed sign (claim_on p l (d ∷ ds)) =
      rw (← signed_sum sign here (claim_on p l ds)) (omega int_laws) in
    rw (rest, sum) refl

pub add_ordered-none :
    (ds : List ClaimSrc) (sign : Sign) (rows : ℕ → Option Requisition) (p l : ℕ)
    → line_at rows p l ≡ none
    → line_at (add_ordered ds sign rows) p l ≡ none
unfolding add_ordered
add_ordered-none [] sign rows p l e = e
add_ordered-none (d ∷ ds) sign rows p l e =
    add_ordered-none ds sign (moved_row d sign rows) p l (moved_row-none d sign rows p l e)
