-- ===== src/Till/Restored.antt =====
-- A sale and its void, end to end: `pay` and `voidBill` of apps/api/src/modules/pos/service.ts.
use rch.Prelude.{
  ℕ, ◌≡◌, ◌≢◌, refl, ap, ◌∙◌, inl, inr, true, false, Option, none, some, List, [], ◌∷◌, ◌==◌,
  ==_iff, Bool-cases, length, arith, ok,
}
use rch.Catalog.{or_zero}
use rch.Credit.{PayerKind}
use rch.Receivables.{Bill, outstanding_for}
use rch.Till.{Till}
use rch.Till.Sale.{SaleInput, post_sale, write_bill}
use rch.Till.Void.{day_closed, write_void, void_bill}
use rch.Till.Posting.{opened, printed, after_sale, plan, session, opened-kept, post_sale-Goes}
use rch.Till.Numbers.{
  IsNumbered, find_bill-snoc, never_settled, session_for-open, session_for-IsNumbered,
  write_bill-IsNumbered,
}
use rch.Till.Undo.{on_hand-undone, outstanding_for-undone}

apart : (a b : ℕ) → a ≢ b → (a == b) ≡ false
apart a b h = elim (Bool-cases (a == b)) [ inl e ↦ absurd (h ((==_iff a b).0 e)) | inr e ↦ e ]

said : (reason : List ℕ) → reason ≢ [] → (length reason == 0) ≡ false
said [] h = absurd (h refl)
said (c ∷ cs) h = ground arith

-- A sale keeps the numbers of its tables new.
pub post_sale-IsNumbered :
    (i : SaleInput) (s : Till) {bill : Bill} {after : Till}
    → IsNumbered s
    → post_sale i s ≡ ok (bill, after)
    → IsNumbered after
post_sale-IsNumbered i s {bill} {after} h done =
    let (phone, goes, same) = post_sale-Goes i s done in
    let result : after_sale i s phone ≡ after = ap (λ r. r.1) same in
    rw (← result) (
      write_bill-IsNumbered (opened i s) (printed i s phone) (plan i s).moves
        (session_for-IsNumbered s i.loc i.operator h) refl)

module _ (ist_date : ℕ → ℕ) (i : SaleInput) (s : Till) (by : ℕ) (reason : List ℕ) (at : ℕ) where
  goes_back :
      (phone : Option (List ℕ))
      → IsNumbered (opened i s)
      → day_closed (opened i s).sessions (some (session i s).id) ≡ false
      → ((outlet : _) × ((opened i s).store.master.locations i.loc ≡ some outlet)
          × (outlet.active ≡ true))
      → i.qr_order ≡ none
      → i.operator ≢ by
      → reason ≢ []
      → ist_date i.at ≡ ist_date at
      → void_bill ist_date by (opened i s).next_bill reason at (after_sale i s phone)
        ≡ ok (write_void (opened i s).next_bill by reason (after_sale i s phone))
  unfolding void_bill write_bill
  goes_back phone h day (outlet, found, active) till_bill other reasoned today =
      rw
        (
          find_bill-snoc (opened i s).books.bills (printed i s phone) h.bills,
          apart i.operator by other,
          said reason reasoned,
          today,
          (==_iff (ist_date at) (ist_date at)).1 refl,
          never_settled (after_sale i s phone).books (opened i s).next_bill h.lines,
          found,
          active,
          day,
          till_bill,
        )
        refl

  -- A void takes a sale back. A bill of the till that is voided on its own day, with a reason and
  -- by another than its operator, before its day is closed, is voided without refusal, and with that
  -- every balance and the account of every payer are what they were before the sale. The numbers of
  -- the tables are new before the sale.
  pub void_bill-post_sale :
      {bill : Bill} {after : Till}
      → IsNumbered s
      → post_sale i s ≡ ok (bill, after)
      → i.qr_order ≡ none
      → i.operator ≢ by
      → reason ≢ []
      → ist_date i.at ≡ ist_date at
      → (undone : Till) × (void_bill ist_date by bill.no reason at after ≡ ok undone)
        × ((l it : ℕ)
            → or_zero (undone.store.ledger.balances l it) ≡ or_zero (s.store.ledger.balances l it))
        × ((kind : PayerKind) (payer : ℕ)
            → outstanding_for undone.books kind payer ≡ outstanding_for s.books kind payer)
  void_bill-post_sale {bill} {after} h done till_bill other reasoned today =
      let (phone, goes, same) = post_sale-Goes i s done in
      let kept = opened-kept i s in
      let numbered = session_for-IsNumbered s i.loc i.operator h in
      let found : (opened i s).store.master.locations i.loc ≡ some goes.outlet =
        rw kept.0 goes.found in
      let voided =
        goes_back phone numbered (session_for-open s i.loc i.operator h)
          (goes.outlet, found, goes.active) till_bill other reasoned today in
      let result : after_sale i s phone ≡ after = ap (λ r. r.1) same in
      let number : (opened i s).next_bill ≡ bill.no = ap (λ r. r.0.no) same in
      (
        write_void (opened i s).next_bill by reason (after_sale i s phone),
        rw (← result, ← number) voided,
        λ l it.
            on_hand-undone (opened i s) (printed i s phone) (plan i s).moves numbered by reason l it
            ∙ ap (λ x. or_zero (x.ledger.balances l it)) kept.0,
        λ kind payer.
            outstanding_for-undone (opened i s) (printed i s phone) (plan i s).moves numbered by
              reason refl kind payer
            ∙ ap (λ b. outstanding_for b kind payer) kept.1,
      )
