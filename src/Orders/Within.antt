-- ===== src/Orders/Within.antt =====
-- No requisition line is ordered beyond what it was approved for: the writes of
-- apps/api/src/modules/purchaseorders/service.ts and closeShort of modules/grn/service.ts.
use rch.Prelude.{
  ℕ, ◌≡◌, refl, sym, ap, ◌∙◌, inl, inr, Bool, true, false, ◌&&◌, Option, none, some, Option-cases,
  List, [], ◌∷◌, ◌==◌, if◌then◌else◌, Bool-cases, get_elem?, All, All-append, arith, ℤ, pos, ◌+ℤ◌,
  ◌-ℤ◌, ◌≤ℤ◌, ltb_ℤ, leb_ℤ, le_of_leb, int_laws, round3, round3_self, round3-IsMilli, IsMilli,
  add-IsMilli, sub-IsMilli, min_ℤ, parts_of_eq, ok, guard, require, >>=-eq-ok, require-eq-ok,
}
use mathlib.Core.List.{reverse}
use rch.Purchasing.Claims.{
  ClaimSrc, before, Release, fold_into, fold_all, fold_claims, release_step, release_loop,
  release_claim,
}
use rch.Purchasing.Claims.Folding.{
  claim_on, Exact, Ascending, fold_into-Exact, All-sort_claims, fold_claims_lem,
}
use rch.Orders.{
  PrqLine, Requisition, Buying, BuyingRefusal, no_requisition, no_requisition_line, not_pending,
  on_line, Sign, taken, given_back, signed, line_at, add_ordered,
}
use rch.Orders.Drafting.{pending, gives, check_pick, check_picks}
use rch.Orders.Pending.{plus, add_ordered-line_at, add_ordered-none}

-- Of every requisition line no more is ordered than was approved.
abbrev pub IsWithin : (ℕ → Option Requisition) → Type 0
IsWithin rows =
    (p l : ℕ) (x : PrqLine)
    → line_at rows p l ≡ some x
    → IsMilli x.appr × IsMilli x.ordered × (x.ordered ≤ℤ x.appr)

fold_all-Exact : (by xs : List ClaimSrc) → Exact by → Exact (fold_all by xs)
unfolding fold_all
fold_all-Exact by [] h = h
fold_all-Exact by (x ∷ xs) h = fold_all-Exact (fold_into by x) xs (fold_into-Exact by x h)

pub fold_claims-Exact : (xs : List ClaimSrc) → Exact (fold_claims xs)
unfolding fold_claims
fold_claims-Exact xs =
    All-sort_claims (λ x. IsMilli x.qty) (fold_all [] xs) (fold_all-Exact [] xs tt)

pub claim_on-IsMilli : (p l : ℕ) (xs : List ClaimSrc) → Exact xs → IsMilli (claim_on p l xs)
claim_on-IsMilli p l [] h = (refl, refl)
claim_on-IsMilli p l (x ∷ xs) (hx, h) = elim (Bool-cases ((x.prq == p) && (x.line == l))) [
  | inl e ↦ rw e (add-IsMilli x.qty _ hx (claim_on-IsMilli p l xs h))
  | inr e ↦ rw e (add-IsMilli (pos 0) _ (refl, refl) (claim_on-IsMilli p l xs h))
]

abbrev pub NonNeg : List ClaimSrc → Type 0
NonNeg xs = All (λ x. pos 0 ≤ℤ x.qty) xs

claim_on-nonneg : (p l : ℕ) (xs : List ClaimSrc) → NonNeg xs → pos 0 ≤ℤ claim_on p l xs
claim_on-nonneg p l [] h = omega arith
claim_on-nonneg p l (x ∷ xs) (hx, h) =
    let rest = claim_on-nonneg p l xs h in
    elim (Bool-cases ((x.prq == p) && (x.line == l))) [
      | inl e ↦ rw e (omega (int_laws, hx, rest))
      | inr e ↦ rw e (omega (int_laws, rest))
    ]

signed-exact : (sign : Sign) (q : ℤ) → IsMilli q → IsMilli (signed sign q)
signed-exact taken q h = h
signed-exact given_back q h = sub-IsMilli (pos 0) q (refl, refl) h

-- Deltas that fit into what is pending keep every line within what it was approved for.
pub add_ordered-IsWithin :
    (ds : List ClaimSrc) (sign : Sign) (rows : ℕ → Option Requisition)
    → Exact ds
    → IsWithin rows
    → ((p l : ℕ) (x : PrqLine)
        → line_at rows p l ≡ some x
        → x.ordered +ℤ signed sign (claim_on p l ds) ≤ℤ x.appr)
    → IsWithin (add_ordered ds sign rows)
add_ordered-IsWithin ds sign rows exact h fits p l y found =
    elim (Option-cases (line_at rows p l)) [
      | inl missing ↦
          let gone = add_ordered-none ds sign rows p l missing in
          let no_line : none ≡ some y = sym gone ∙ found in cc
      | inr (x, e) ↦
          let (ha, ho, le) = h p l x e in
          let now = add_ordered-line_at ds sign rows p l exact ho e in
          let both : some (plus (signed sign (claim_on p l ds)) x) ≡ some y = sym now ∙ found in
          let same : plus (signed sign (claim_on p l ds)) x ≡ y = cc in
          rw (← same) (
            ha,
            add-IsMilli x.ordered _ ho (signed-exact sign _ (claim_on-IsMilli p l ds exact)),
            fits p l x e,
          )
    ]

not_before : (f x : ClaimSrc) → before f x ≡ true → ((f.prq == x.prq) && (f.line == x.line)) ≡ false
not_before f x h = ground arith

claim_on-later :
    (p l : ℕ) (f : ClaimSrc) (fs : List ClaimSrc)
    → All (λ x. before f x ≡ true) fs
    → ((f.prq == p) && (f.line == l)) ≡ true
    → claim_on p l fs ≡ pos 0
claim_on-later p l f [] h e = refl
claim_on-later p l f (x ∷ fs) (hx, h) e =
    let other : ((x.prq == p) && (x.line == l)) ≡ false = ground arith in
    rw (other, claim_on-later p l f fs h e) (omega int_laws)

guarded : (e : BuyingRefusal) (t : Bool) → guard t e ≡ ok tt → t ≡ true
guarded e true h = refl
guarded e false h = cc

pending_bound :
    (given : Bool) (appr ordered q : ℤ)
    → IsMilli appr × IsMilli ordered × (ordered ≤ℤ appr)
    → q ≤ℤ (if given then round3 (appr -ℤ ordered) else pos 0)
    → ordered +ℤ q ≤ℤ appr
pending_bound true appr ordered q (ha, ho, le) h =
    let h' : q ≤ℤ appr -ℤ ordered =
      rw (← round3_self (appr -ℤ ordered) (sub-IsMilli appr ordered ha ho)) h in
    omega (int_laws, h')
pending_bound false appr ordered q (ha, ho, le) h = omega (int_laws, le, h)

check_pick-fits :
    (s : Buying) (f : ClaimSrc) (x : PrqLine)
    → check_pick s f ≡ ok tt
    → line_at s.requisitions f.prq f.line ≡ some x
    → IsMilli x.appr × IsMilli x.ordered × (x.ordered ≤ℤ x.appr)
    → x.ordered +ℤ f.qty ≤ℤ x.appr
check_pick-fits s f x here e w =
    let (r, found, h1) = >>=-eq-ok (require (s.requisitions f.prq) (no_requisition f)) _ here in
    let (y, at, h2) = >>=-eq-ok (require (get_elem? r.lines f.line) (no_requisition_line f)) _ h1 in
    let row : s.requisitions f.prq ≡ some r = require-eq-ok _ _ found in
    let line : get_elem? r.lines f.line ≡ some y = require-eq-ok _ _ at in
    let both : some y ≡ some x = sym line ∙ sym (ap (on_line f.line) row) ∙ e in
    let same : y ≡ x = cc in
    let test : leb_ℤ f.qty (pending r x) ≡ true = rw (← same) (guarded (not_pending f) _ h2) in
    pending_bound (gives r.status) x.appr x.ordered f.qty w (le_of_leb f.qty (pending r x) test)

-- What passes the check is pending, of every line at once.
check_picks-fits :
    (s : Buying) (fs : List ClaimSrc)
    → Ascending fs
    → check_picks s fs ≡ ok tt
    → IsWithin s.requisitions
    → (p l : ℕ) (x : PrqLine) → line_at s.requisitions p l ≡ some x
    → x.ordered +ℤ claim_on p l fs ≤ℤ x.appr
unfolding check_picks
check_picks-fits s [] asc h w p l x e = let (_, _, le) = w p l x e in omega (int_laws, le)
check_picks-fits s (f ∷ fs) (first, asc) h w p l x e =
    let (_, here, rest) = >>=-eq-ok (check_pick s f) (λ _. check_picks s fs) h in
    let ih = check_picks-fits s fs asc rest w p l x e in
    elim (Bool-cases ((f.prq == p) && (f.line == l))) [
      | inl mine ↦
          let p_is : f.prq ≡ p = ground arith in
          let l_is : f.line ≡ l = ground arith in
          let e' : line_at s.requisitions f.prq f.line ≡ some x = rw (p_is, l_is) e in
          let fits = check_pick-fits s f x here e' (w p l x e) in
          rw (mine, claim_on-later p l f fs first mine) (omega (int_laws, fits))
      | inr other ↦ rw other (omega (int_laws, ih))
    ]

-- A draft takes no more of any line than is pending on it.
pub taken-IsWithin :
    (s : Buying) (picks : List ClaimSrc)
    → Exact picks
    → IsWithin s.requisitions
    → check_picks s (fold_claims picks) ≡ ok tt
    → IsWithin (add_ordered (fold_claims picks) taken s.requisitions)
taken-IsWithin s picks exact w checked =
    let (asc, _) = fold_claims_lem picks exact in
    add_ordered-IsWithin (fold_claims picks) taken s.requisitions (fold_claims-Exact picks) w
      (check_picks-fits s (fold_claims picks) asc checked w)

-- Giving claims back never orders more.
pub given_back-IsWithin :
    (released : List ClaimSrc) (rows : ℕ → Option Requisition)
    → Exact released
    → NonNeg released
    → IsWithin rows
    → IsWithin (add_ordered (fold_claims released) given_back rows)
given_back-IsWithin released rows exact low w =
    add_ordered-IsWithin (fold_claims released) given_back rows (fold_claims-Exact released) w
      (λ p l x e.
        let (_, _, le) = w p l x e in
        let sum = parts_of_eq _ _ ((fold_claims_lem released exact).1 p l) in
        let back = claim_on-nonneg p l released low in omega (int_laws, le, sum, back))

release_loop-Exact :
    (xs : List ClaimSrc) (r : Release) → Exact r.released → Exact (release_loop xs r).released
unfolding release_loop release_step
release_loop-Exact [] r h = h
release_loop-Exact (x ∷ xs) r h =
    release_loop-Exact xs (release_step r x)
      (elim (Bool-cases (ltb_ℤ (pos 0) (min_ℤ r.owed x.qty))) [
        | inl e ↦ rw e (
            All-append (λ y. IsMilli y.qty) r.released _ h
              (round3-IsMilli (min_ℤ r.owed x.qty), tt))
        | inr e ↦ rw e h
      ])

pub release_claim-Exact : (src : List ClaimSrc) (give : ℤ) → Exact (release_claim src give).released
unfolding release_claim
release_claim-Exact src give = release_loop-Exact (reverse src) _ tt
