-- ===== src/Orders/Undecided.antt =====
-- Requisitions that wait for the buyer's decision, under the claims that orders move and under a
-- requisition that is written: apps/api/src/lib/claims.ts and modules/requisitions/repo.ts.
use rch.Prelude.{
  ℕ, zero, suc, ◌≡◌, refl, sym, ap, ◌∙◌, inl, inr, Bool, true, false, Option, none, some, List, [],
  ◌∷◌, ◌==◌, if◌then◌else◌, Bool-cases, get_elem?, All, ℤ, pos, ◌≤ℤ◌, IsMilli,
}
use rch.Workflow.Status.{PrqStatus}
use rch.Purchasing.Claims.{ClaimSrc}
use rch.Orders.{PrqLine, Requisition, Sign, signed, on_line, bump_nth, bump_row, put, add_ordered}
use rch.Orders.Pending.{moved_row}
use rch.Orders.Within.{IsWithin}

abbrev pub is_sent : PrqStatus → Bool
is_sent PrqStatus.sent = true
is_sent st = false

abbrev pub Untouched : List PrqLine → Type 0
Untouched ls = All (λ x. x.appr ≡ pos 0) ls

-- Nothing is approved of a requisition that waits for its decision.
abbrev pub IsUndecided : (ℕ → Option Requisition) → Type 0
IsUndecided rows =
    (p : ℕ) (r : Requisition) → rows p ≡ some r → is_sent r.status ≡ true → Untouched r.lines

bump_nth-Untouched :
    (n : ℕ) (q : ℤ) (ls : List PrqLine) → Untouched ls → Untouched (bump_nth n q ls)
bump_nth-Untouched n q [] h = tt
bump_nth-Untouched zero q (l ∷ ls) h = h
bump_nth-Untouched (suc n) q (l ∷ ls) h = (h.0, bump_nth-Untouched n q ls h.1)

bump_row-Untouched :
    (n : ℕ) (q : ℤ) (o : Option Requisition)
    → ((u : Requisition) → o ≡ some u → is_sent u.status ≡ true → Untouched u.lines)
    → (r : Requisition) → bump_row n q o ≡ some r
    → is_sent r.status ≡ true
    → Untouched r.lines
bump_row-Untouched n q none h r e sent = cc
bump_row-Untouched n q (some u) h r e sent =
    let same : record u { lines = bump_nth n q u.lines } ≡ r = cc in
    let still : is_sent u.status ≡ true = ap (λ v. is_sent v.status) same ∙ sent in
    rw (← same) (bump_nth-Untouched n q u.lines (h u refl still))

moved_row-IsUndecided :
    (d : ClaimSrc) (sign : Sign) (rows : ℕ → Option Requisition)
    → IsUndecided rows
    → IsUndecided (moved_row d sign rows)
moved_row-IsUndecided d sign rows h p r e sent = elim (Bool-cases (p == d.prq)) [
  | inl mine ↦
      let row : moved_row d sign rows p ≡ bump_row d.line (signed sign d.qty) (rows p) =
        rw mine refl in
      bump_row-Untouched d.line _ (rows p) (h p) r (sym row ∙ e) sent
  | inr other ↦
      let row : moved_row d sign rows p ≡ rows p = rw other refl in h p r (sym row ∙ e) sent
]

pub add_ordered-IsUndecided :
    (ds : List ClaimSrc) (sign : Sign) (rows : ℕ → Option Requisition)
    → IsUndecided rows
    → IsUndecided (add_ordered ds sign rows)
unfolding add_ordered
add_ordered-IsUndecided [] sign rows h = h
add_ordered-IsUndecided (d ∷ ds) sign rows h =
    add_ordered-IsUndecided ds sign (moved_row d sign rows) (moved_row-IsUndecided d sign rows h)

-- What `IsWithin` asks of a line.
abbrev pub Fits : PrqLine → Type 0
Fits x = IsMilli x.appr × IsMilli x.ordered × (x.ordered ≤ℤ x.appr)

nth_of_All :
    (P : PrqLine → Type 0) (ls : List PrqLine) (n : ℕ) {x : PrqLine}
    → All P ls
    → get_elem? ls n ≡ some x
    → P x
nth_of_All P [] n h e = cc
nth_of_All P (l ∷ ls) zero {x} h e = let same : l ≡ x = cc in rw (← same) h.0
nth_of_All P (l ∷ ls) (suc n) h e = nth_of_All P ls n h.1 e

pub All_of_nth :
    (P : PrqLine → Type 0) (ls : List PrqLine)
    → ((n : ℕ) (x : PrqLine) → get_elem? ls n ≡ some x → P x)
    → All P ls
All_of_nth P [] h = tt
All_of_nth P (l ∷ ls) h = (h zero l refl, All_of_nth P ls (λ n. h (suc n)))

-- A requisition that is written keeps the list sound where its lines fit, and untouched where it
-- waits.
module _ (id : ℕ) (r : Requisition) (rows : ℕ → Option Requisition) where
  pub put-IsWithin : All Fits r.lines → IsWithin rows → IsWithin (put id r rows)
  put-IsWithin own h p l x e = elim (Bool-cases (p == id)) [
    | inl mine ↦
        nth_of_All Fits r.lines l own
          (ap (λ b. on_line l (if b then some r else rows p)) (sym mine) ∙ e)
    | inr other ↦ h p l x (ap (λ b. on_line l (if b then some r else rows p)) (sym other) ∙ e)
  ]

  pub put-IsUndecided :
      (is_sent r.status ≡ true → Untouched r.lines) → IsUndecided rows → IsUndecided (put id r rows)
  put-IsUndecided own h p u e sent = elim (Bool-cases (p == id)) [
    | inl mine ↦
        let row : some r ≡ some u = ap (λ b. if b then some r else rows p) (sym mine) ∙ e in
        let same : r ≡ u = cc in rw (← same) (own (ap (λ v. is_sent v.status) same ∙ sent))
    | inr other ↦ h p u (ap (λ b. if b then some r else rows p) (sym other) ∙ e) sent
  ]
