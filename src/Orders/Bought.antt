-- ===== src/Orders/Bought.antt =====
-- Every write on orders keeps the procurement list sound:
-- apps/api/src/modules/purchaseorders/service.ts and modules/grn/service.ts.
use rch.Prelude.{
  ℕ, zero, suc, ◌≡◌, sym, ap, ◌∙◌, inl, inr, true, Option, some, List, [], ◌∷◌, ◌==◌, if◌then◌else◌,
  Bool-cases, get_elem?, every, All, All-imp, All-append, arith, ℤ, pos, ◌≤ℤ◌, ltb_ℤ, lt_of_ltb,
  round3-IsMilli, IsMilli,
}
use rch.Purchasing.Claims.{ClaimSrc}
use rch.Purchasing.Claims.Folding.{Exact}
use rch.Purchasing.Claims.Releasing.{IsClaim, IsPart}
use rch.Tickets.Sending.{round3_low}
use rch.Orders.{PoLine, PurchaseOrder, Buying, put, stored_src, written_lines}
use rch.Orders.Drafting.{Pick, picked, item_at, merge_pick, merge_picks, priced, set_nth, drop_nth}
use rch.Orders.Placing.{sources}
use rch.Orders.Within.{IsWithin, NonNeg}
use rch.Orders.Undecided.{IsUndecided}

-- Quantities are of whole thousandths, and the sources of the lines are claims, also not below
-- nothing.
abbrev pub AreClaims : List PoLine → Type 0
AreClaims lines = All (λ l. IsMilli l.qty × All IsClaim l.src) lines

pub record IsBought (s : Buying) : Type 0 where
  pub within : IsWithin s.requisitions
  pub undecided : IsUndecided s.requisitions
  pub claims : (id : ℕ) (o : PurchaseOrder) → s.orders id ≡ some o → AreClaims o.lines

pub put-AreClaims :
    (id : ℕ) (o : PurchaseOrder) (rows : ℕ → Option PurchaseOrder)
    → AreClaims o.lines
    → ((k : ℕ) (u : PurchaseOrder) → rows k ≡ some u → AreClaims u.lines)
    → (k : ℕ) (u : PurchaseOrder) → put id o rows k ≡ some u
    → AreClaims u.lines
put-AreClaims id o rows own h k u e = elim (Bool-cases (k == id)) [
  | inl same ↦
      let found : some o ≡ some u = ap (λ b. if b then some o else rows k) (sym same) ∙ e in
      let is : o ≡ u = cc in rw (← is) own
  | inr other ↦ h k u (ap (λ b. if b then some o else rows k) (sym other) ∙ e)
]

stored_src-claims : (xs : List ClaimSrc) → NonNeg xs → All IsClaim (stored_src xs)
stored_src-claims [] h = tt
stored_src-claims (x ∷ xs) (low, h) =
    ((round3-IsMilli x.qty, round3_low x.qty low), stored_src-claims xs h)

pub written_lines-AreClaims :
    (ls : List PoLine) → All (λ l. NonNeg l.src) ls → AreClaims (written_lines ls)
written_lines-AreClaims [] h = tt
written_lines-AreClaims (l ∷ ls) (own, h) =
    ((round3-IsMilli l.qty, stored_src-claims l.src own), written_lines-AreClaims ls h)

pub low_of_claims : (xs : List ClaimSrc) → All IsClaim xs → NonNeg xs
low_of_claims xs h = All-imp xs (λ x c. c.1) h

pub lines_low : (ls : List PoLine) → AreClaims ls → All (λ l. NonNeg l.src) ls
lines_low ls h = All-imp ls (λ l c. low_of_claims l.src c.1) h

pub Exact-of_claims : (xs : List ClaimSrc) → All IsClaim xs → Exact xs
Exact-of_claims xs h = All-imp xs (λ x c. c.0) h

pub parts_low : (xs : List ClaimSrc) → All IsPart xs → NonNeg xs
parts_low xs h = All-imp xs (λ x p. omega (arith, p)) h

pub nth-All :
    (P : PoLine → Type 0) (n : ℕ) (ls : List PoLine) {l : PoLine}
    → get_elem? ls n ≡ some l
    → All P ls
    → P l
nth-All P n [] e h = cc
nth-All P zero (x ∷ ls) {l} e h = let same : x ≡ l = cc in rw (← same) h.0
nth-All P (suc n) (x ∷ ls) e h = nth-All P n ls e h.1

pub set_nth-All :
    (P : PoLine → Type 0) (n : ℕ) (x : PoLine) (ls : List PoLine)
    → P x
    → All P ls
    → All P (set_nth n x ls)
set_nth-All P n x [] own h = tt
set_nth-All P zero x (l ∷ ls) own h = (own, h.1)
set_nth-All P (suc n) x (l ∷ ls) own h = (h.0, set_nth-All P n x ls own h.1)

pub drop_nth-All :
    (P : PoLine → Type 0) (n : ℕ) (ls : List PoLine) → All P ls → All P (drop_nth n ls)
drop_nth-All P n [] h = tt
drop_nth-All P zero (l ∷ ls) h = h.1
drop_nth-All P (suc n) (l ∷ ls) h = (h.0, drop_nth-All P n ls h.1)

merge_pick-low :
    (it : ℕ) (p : ClaimSrc) (ls : List PoLine)
    → pos 0 ≤ℤ p.qty
    → All (λ l. NonNeg l.src) ls
    → All (λ l. NonNeg l.src) (merge_pick it p ls)
unfolding merge_pick
merge_pick-low it p [] low h = ((low, tt), tt)
merge_pick-low it p (l ∷ ls) low (own, h) = elim (Bool-cases (l.it == it)) [
  | inl e ↦ rw e (All-append (λ x. pos 0 ≤ℤ x.qty) l.src (p ∷ []) own (low, tt), h)
  | inr e ↦ rw e (own, merge_pick-low it p ls low h)
]

pub merge_picks-low :
    (s : Buying) (ps : List ClaimSrc) (ls : List PoLine)
    → NonNeg ps
    → All (λ l. NonNeg l.src) ls
    → All (λ l. NonNeg l.src) (merge_picks s ps ls)
unfolding merge_picks
merge_picks-low s [] ls low h = h
merge_picks-low s (p ∷ ps) ls (lp, low) h =
    merge_picks-low s ps (merge_pick (item_at s p.prq p.line) p ls) low
      (merge_pick-low (item_at s p.prq p.line) p ls lp h)

pub priced-low :
    (s : Buying) (vendor today : ℕ) (rates : List (ℕ × ℤ)) (ls : List PoLine)
    → All (λ l. NonNeg l.src) ls
    → All (λ l. NonNeg l.src) (priced s vendor today rates ls)
priced-low s vendor today rates [] h = tt
priced-low s vendor today rates (l ∷ ls) h = (h.0, priced-low s vendor today rates ls h.1)

pub picked-Exact : (ps : List Pick) → Exact (picked ps)
picked-Exact [] = tt
picked-Exact (p ∷ ps) = (round3-IsMilli p.qty, picked-Exact ps)

pub picked-low : (ps : List Pick) → every (λ p. ltb_ℤ (pos 0) p.qty) ps ≡ true → NonNeg (picked ps)
picked-low [] h = tt
picked-low (p ∷ ps) h =
    let some_asked : ltb_ℤ (pos 0) p.qty ≡ true = ground arith in
    let more = lt_of_ltb (pos 0) p.qty some_asked in
    (round3_low p.qty (omega (arith, more)), picked-low ps (ground arith))

pub sources-claims : (ls : List PoLine) → AreClaims ls → All IsClaim (sources ls)
sources-claims [] h = tt
sources-claims (l ∷ ls) h = All-append IsClaim l.src (sources ls) h.0.1 (sources-claims ls h.1)
