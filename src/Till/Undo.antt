-- ===== src/Till/Undo.antt =====
-- A void takes a sale back: `postSale` of apps/api/src/lib/sale.ts and `voidBill` of
-- apps/api/src/modules/pos/service.ts, one after the other.
use rch.Prelude.{
  ℕ, ◌+◌, ◌<◌, ◌≡◌, refl, inl, inr, Bool, true, false, ◌&&◌, not, List, [], ◌∷◌, ◌++◌, ◌==◌, ==_iff,
  Bool-cases, filter, All, arith, pos, ◌-ℤ◌, int_laws, round3, round3_self, IsMilli, sub-IsMilli,
  sum_of, parts_of_eq, ◌==ℤ◌,
}
use rch.Catalog.{or_zero}
use rch.Ledger.{bill_ref, Move, real, stored, moved, at_cell, post_moves}
use rch.Ledger.Cache.{post_moves-IsCached, post_moves_on_hand, moved-real, stored-IsMilli}
use rch.Billing.{ShelfMove}
use rch.Credit.{PayerKind, is_account_tender}
use rch.Receivables.{Bill, charges, outstanding_for, is_kind}
use rch.Till.{Till}
use rch.Till.Sale.{moves_for, sale_move, write_bill}
use rch.Till.Void.{is_sale_of, reversals_from, void_bills, stamp_voided, write_void}
use rch.Till.Numbers.{IsNumbered}

not_of_bill :
    (num : ℕ) (m : Move) → (m.ref_type ≡ bill_ref → m.ref_id < num) → is_sale_of num m ≡ false
not_of_bill num m h = elim (Bool-cases (m.ref_type == bill_ref)) [
  | inl e ↦
      let low = h ((==_iff m.ref_type bill_ref).0 e) in
      let apart : (m.ref_id == num) ≡ false = ground arith in rw (e, apart) refl
  | inr e ↦ rw e refl
]

-- Older moves are not reversed.
reversals-skip :
    (num by id : ℕ) (xs ys : List Move)
    → All (λ m. m.ref_type ≡ bill_ref → m.ref_id < num) xs
    → (later : ℕ) × (reversals_from num by id (xs ++ ys) ≡ reversals_from num by later ys)
unfolding reversals_from
reversals-skip num by id [] ys h = (id, refl)
reversals-skip num by id (m ∷ xs) ys (hm, h) =
    let (later, e) = reversals-skip num by (id + 1) xs ys h in
    (later, rw (not_of_bill num m hm, e) refl)

all_own :
    (num by : ℕ) (ms : List ShelfMove)
    → All (λ m. is_sale_of num m ≡ true) (stored (real (moves_for num by ms)))
unfolding real
all_own num by [] = tt
all_own num by (m ∷ ms) = elim (Bool-cases (round3 m.qty ==ℤ pos 0)) [
  | inl crumb ↦ rw crumb (all_own num by ms)
  | inr left ↦
      let own : is_sale_of num (sale_move num by m) ≡ true = rw ((==_iff num num).1 refl) refl in
      rw left (own, all_own num by ms)
]

-- The bill's own moves are reversed, each by its opposite.
reversals-moved :
    (num other id l i : ℕ) (ms : List Move)
    → All (λ m. is_sale_of num m ≡ true) ms
    → All (λ m. IsMilli m.qty) ms
    → moved l i (stored (reversals_from num other id ms)) ≡ pos 0 -ℤ moved l i ms
unfolding reversals_from
reversals-moved num other id l i [] own exact = omega int_laws
reversals-moved num other id l i (m ∷ ms) (o, own) (e, exact) =
    let ih = reversals-moved num other (id + 1) l i ms own exact in
    let back = round3_self (pos 0 -ℤ m.qty) (sub-IsMilli (pos 0) m.qty (refl, refl) e) in
    elim (Bool-cases (at_cell l i m)) [
      | inl here ↦ rw (o, here, back, ih) (omega int_laws)
      | inr away ↦ rw (o, away, ih) refl
    ]

void_bills-older :
    (num : ℕ) (b : Bill) (bs : List Bill)
    → All (λ c. c.no < num) bs
    → b.no ≡ num
    → void_bills num (bs ++ b ∷ []) ≡ bs ++ record b { voided = true } ∷ []
void_bills-older num b [] h e = rw (e, (==_iff num num).1 refl) refl
void_bills-older num b (c ∷ bs) (low, h) e =
    let apart : (c.no == num) ≡ false = ground arith in
    rw (apart, void_bills-older num b bs h e) refl

voided_free : (a b c : Bool) → (a && b && c && not true) ≡ false
voided_free a b c = ground arith

charged-voided :
    (kind : PayerKind) (payer : ℕ) (b : Bill) (bs : List Bill)
    → sum_of (λ c. c.total) (filter (charges kind payer) (bs ++ record b { voided = true } ∷ []))
      ≡ sum_of (λ c. c.total) (filter (charges kind payer) bs)
charged-voided kind payer b [] =
    rw (voided_free (is_account_tender b.tender) (is_kind b.payer_kind kind) (b.payer_id == payer))
      refl
charged-voided kind payer b (c ∷ bs) = elim (Bool-cases (charges kind payer c)) [
  | inl e ↦ rw (e, charged-voided kind payer b bs) refl
  | inr e ↦ rw (e, charged-voided kind payer b bs) refl
]

module _ (s : Till) (bill : Bill) (ms : List ShelfMove) (h : IsNumbered s) (by : ℕ)
    (reason : List ℕ) where
  abbrev sold : Till
  sold = write_bill bill (moves_for s.next_bill bill.operator ms) s

  sold_ledger :
      sold.store.ledger ≡ post_moves (moves_for s.next_bill bill.operator ms) s.store.ledger
  unfolding write_bill
  sold_ledger = refl

  reversed :
      (l i : ℕ)
      → let batch = moves_for s.next_bill bill.operator ms in
        moved l i (stored (reversals_from s.next_bill by 0 (post_moves batch s.store.ledger).moves))
        ≡ pos 0 -ℤ moved l i (stored (real batch))
  unfolding post_moves
  reversed l i =
      let batch = moves_for s.next_bill bill.operator ms in
      let (id, skip) =
        reversals-skip s.next_bill by 0 s.store.ledger.moves (stored (real batch)) h.moves in
      rw skip (
        reversals-moved s.next_bill by id l i (stored (real batch))
          (all_own s.next_bill bill.operator ms) (stored-IsMilli (real batch)))

  pub on_hand-undone :
      (l i : ℕ)
      → or_zero ((write_void s.next_bill by reason sold).store.ledger.balances l i)
        ≡ or_zero (s.store.ledger.balances l i)
  unfolding write_void
  on_hand-undone l i =
      let batch = moves_for s.next_bill bill.operator ms in
      let after = (post_moves-IsCached batch s.store.ledger h.cached).0 in
      let reversals = reversals_from s.next_bill by 0 (post_moves batch s.store.ledger).moves in
      let sale_row = parts_of_eq _ _ (post_moves_on_hand batch s.store.ledger l i h.cached).0 in
      let void_row =
        parts_of_eq _ _
          (post_moves_on_hand reversals (post_moves batch s.store.ledger) l i after).0 in
      let back = parts_of_eq _ _ (reversed l i) in
      let same = parts_of_eq _ _ (moved-real l i batch) in
      rw sold_ledger (omega (int_laws, sale_row, void_row, back, same))

  pub outstanding_for-undone :
      bill.no ≡ s.next_bill
      → (kind : PayerKind) (payer : ℕ)
      → outstanding_for (write_void s.next_bill by reason sold).books kind payer
        ≡ outstanding_for s.books kind payer
  unfolding write_void write_bill stamp_voided outstanding_for
  outstanding_for-undone own kind payer =
      rw
        (
          void_bills-older s.next_bill bill s.books.bills h.bills own,
          charged-voided kind payer bill s.books.bills,
        )
        refl
