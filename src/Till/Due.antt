-- ===== src/Till/Due.antt =====
-- What the worker is handed of the queue of refunds: `claimDueRefunds` of
-- apps/api/src/lib/refunds.ts.
use rch.Prelude.{
  ℕ, zero, suc, ◌≡◌, refl, sym, ap, ◌∙◌, inl, inr, Bool, true, false, some, List, [], ◌∷◌, All,
  Bool-cases, filter, map, arith,
}
use mathlib.Core.Bool.{false≢true}
use rch.Workflow.Status.{RefundStatus, refund_coded}
use rch.Till.{Refund}
use rch.Till.Refunds.{
  is_refund, id_of, find_refund, comes_before, queued, in_order, first_of, is_pending, is_due,
  claimed, claim_due_refunds,
}
use rch.Till.Queue.{find_here, find_on}

-- The primary key of payment_refunds: no two rows have one id.
abbrev pub HaveOwnIds : List Refund → Type 0
HaveOwnIds [] = Unit
HaveOwnIds (r ∷ rs) = All (λ x. is_refund (id_of r) x ≡ false) rs × HaveOwnIds rs

module _ (P : Refund → Type 0) where
  queued-All :
      (order : ℕ × ℕ → ℕ × ℕ → Bool) (r : Refund) (rs : List Refund)
      → P r
      → All P rs
      → All P (queued order r rs)
  queued-All order r [] h hs = (h, tt)
  queued-All order r (x ∷ xs) h (hx, hs) = elim (Bool-cases (comes_before order r x)) [
    | inl e ↦ rw e ((h, (hx, hs)))
    | inr e ↦ rw e (hx, queued-All order r xs h hs)
  ]

  in_order-All :
      (order : ℕ × ℕ → ℕ × ℕ → Bool) (rs : List Refund) → All P rs → All P (in_order order rs)
  in_order-All order [] hs = tt
  in_order-All order (r ∷ rs) (h, hs) =
      queued-All order r (in_order order rs) h (in_order-All order rs hs)

  first_of-All : (n : ℕ) (rs : List Refund) → All P rs → All P (first_of n rs)
  first_of-All n [] hs = tt
  first_of-All zero (r ∷ rs) hs = tt
  first_of-All (suc n) (r ∷ rs) (h, hs) = (h, first_of-All n rs hs)

module _ (o n : ℕ) where
  abbrev IsOther : Refund → Type 0
  IsOther c = (c.status ≡ RefundStatus.pending) × (is_refund (o, n) c ≡ false)

  abbrev IsDone : Refund → Type 0
  IsDone c = is_refund (o, n) c ≡ true → c.status ≡ RefundStatus.processed

  no_more :
      (x : Refund) (rs : List Refund)
      → is_refund (o, n) x ≡ true
      → All (λ y. is_refund (id_of x) y ≡ false) rs
      → All IsDone rs
  no_more x [] e hs = tt
  no_more x (y ∷ rs) e (h, hs) = (λ w. absurd (false≢true (ground arith)), no_more x rs e hs)

  -- A refund that is processed is the only row of its id.
  pub processed_only :
      (rows : List Refund) {r : Refund}
      → HaveOwnIds rows
      → find_refund (o, n) rows ≡ some r
      → r.status ≡ RefundStatus.processed
      → All IsDone rows
  processed_only [] keyed e st = tt
  processed_only (x ∷ rows) {r} (keyed, rest) e st = elim (Bool-cases (is_refund (o, n) x)) [
    | inl here ↦
        let found : some x ≡ some r = sym (find_here o n x rows here) ∙ e in
        let same : x ≡ r = cc in (λ w. ap (λ v. v.status) same ∙ st, no_more x rows here keyed)
    | inr there ↦ (
      λ w. absurd (false≢true (sym there ∙ w)),
      processed_only rows rest (sym (find_on o n x rows there) ∙ e) st,
    )
  ]

  pending_iff : (st : RefundStatus) → is_pending st ≡ true → st ≡ RefundStatus.pending
  pending_iff RefundStatus.pending e = refl
  pending_iff RefundStatus.sent e = absurd (false≢true e)
  pending_iff RefundStatus.processed e = absurd (false≢true e)
  pending_iff RefundStatus.failed e = absurd (false≢true e)

  due-IsOther : (now : ℕ) (c : Refund) → is_due now c ≡ true → IsDone c → IsOther c
  due-IsOther now c due h =
      let waits : is_pending c.status ≡ true = ground arith in
      (
        pending_iff c.status waits,
        elim (Bool-cases (is_refund (o, n) c)) [
          | inl e ↦ absurd (false≢true (ap is_pending (sym (h e)) ∙ waits))
          | inr e ↦ e
        ],
      )

  due-All :
      (now : ℕ) (rows : List Refund) → All IsDone rows → All IsOther (filter (is_due now) rows)
  due-All now [] hs = tt
  due-All now (c ∷ rows) (h, hs) = elim (Bool-cases (is_due now c)) [
    | inl e ↦ rw e (due-IsOther now c e h, due-All now rows hs)
    | inr e ↦ rw e (due-All now rows hs)
  ]

  claimed-All : (now : ℕ) (rs : List Refund) → All IsOther rs → All IsOther (map (claimed now) rs)
  unfolding claimed
  claimed-All now [] hs = tt
  claimed-All now (r ∷ rs) (h, hs) = (h, claimed-All now rs hs)

  -- What the worker is handed is pending, and none of it is a refund that is processed.
  pub handed-pending :
      (order : ℕ × ℕ → ℕ × ℕ → Bool) (now limit : ℕ) (rows : List Refund)
      → All IsDone rows
      → All IsOther (claim_due_refunds order now limit rows).0
  unfolding claim_due_refunds
  handed-pending order now limit rows h =
      claimed-All now (first_of limit (in_order order (filter (is_due now) rows)))
        (first_of-All IsOther limit _ (in_order-All IsOther order _ (due-All now rows h)))
