-- ===== src/Till/Posting.antt =====
-- What a sale that goes through has done: `postSale` of apps/api/src/lib/sale.ts.
use rch.Prelude.{
  ℕ, ◌≡◌, refl, ap, true, Option, none, some, List, [], ℤ, ok, ok_inj, >>=-eq-ok, guard-eq-ok,
  require-eq-ok,
}
use rch.Catalog.{Location}
use rch.Billing.{BillPlan, plan_bill}
use rch.Credit.{party_of}
use rch.Receivables.{Bill}
use rch.Tickets.Cover.{IsCovered}
use rch.Till.{Session, Till, lock_location}
use rch.Till.Menu.{sellable_at, assert_sellable, cart_of}
use rch.Till.Sale.{
  find_session, is_open_at, held_or_minted, SaleInput, session_for, customer_phone, assert_payer,
  terms_for, kind_of, assert_credit, took_from, is_covered, is_still_covered, bill_for, moves_for,
  write_bill, post_sale,
}
use rch.Till.Cart.{cart_of_lem}
use rch.Till.Shelf.{AreFrom, plan_bill-AreFrom, sold-IsCovered}

held_or_minted-kept :
    (s : Till) (loc by : ℕ) (o : Option Session)
    → let t = (held_or_minted s loc by o).1 in
      (t.store ≡ s.store) × (t.books ≡ s.books) × (t.next_bill ≡ s.next_bill)
held_or_minted-kept s loc by none = (refl, refl, refl)
held_or_minted-kept s loc by (some held) = (refl, refl, refl)

module _ (i : SaleInput) (s : Till) where
  abbrev pub session : Session
  session = (session_for s i.loc i.operator).0

  -- The state with the session of the day open.
  abbrev pub opened : Till
  opened = (session_for s i.loc i.operator).1

  abbrev pub pct : ℕ
  pct = (terms_for opened (party_of (kind_of i.payer)) i.payer).pct

  abbrev pub limit : Option ℤ
  limit = (terms_for opened (party_of (kind_of i.payer)) i.payer).limit

  abbrev pub plan : BillPlan
  plan = plan_bill opened.store.master opened.prices i.loc pct (cart_of i.lines)

  abbrev pub printed : Option (List ℕ) → Bill
  printed phone = bill_for i phone session.id opened.next_bill pct plan

  abbrev pub after_sale : Option (List ℕ) → Till
  after_sale phone =
      write_bill (printed phone) (moves_for opened.next_bill i.operator plan.moves) opened

  -- Every condition but the repeated check.
  pub record Goes (phone : Option (List ℕ)) : Type 0 where
    pub outlet : Location
    pub found : s.store.master.locations i.loc ≡ some outlet
    pub active : outlet.active ≡ true
    pub phone_read : customer_phone i.phone ≡ ok phone
    pub payer_right : assert_payer opened i.tender i.payer ≡ ok tt
    pub sellable : assert_sellable (sellable_at opened i.loc) (cart_of i.lines) ≡ ok tt
    pub credit_left : assert_credit opened.books i.payer plan.tot limit ≡ ok tt
    pub covered : is_covered opened.store i.loc (took_from [] plan.moves) ≡ true

  pub post_sale-Goes :
      {r : Bill × Till}
      → post_sale i s ≡ ok r
      → (phone : Option (List ℕ)) × Goes phone × ((printed phone, after_sale phone) ≡ r)
  unfolding post_sale
  post_sale-Goes h =
      let (outlet, found, h1) = >>=-eq-ok (lock_location s.store.master i.loc) _ h in
      let (active, h2) = guard-eq-ok outlet.active _ _ h1 in
      let (phone, read, h3) = >>=-eq-ok (customer_phone i.phone) _ h2 in
      let (_, payer, h4) = >>=-eq-ok (assert_payer opened i.tender i.payer) _ h3 in
      let (_, sellable, h5) =
        >>=-eq-ok (assert_sellable (sellable_at opened i.loc) (cart_of i.lines)) _ h4 in
      let (_, credit, h6) = >>=-eq-ok (assert_credit opened.books i.payer plan.tot limit) _ h5 in
      let (covered, h7) =
        guard-eq-ok (is_covered opened.store i.loc (took_from [] plan.moves)) _ _ h6 in
      let (_, made) =
        guard-eq-ok (is_still_covered (after_sale phone).store i.loc (took_from [] plan.moves)) _ _
          h7 in
      (
        phone,
        record {
          outlet = outlet;
          found = require-eq-ok _ _ found;
          active = active;
          phone_read = read;
          payer_right = payer;
          sellable = sellable;
          credit_left = credit;
          covered = covered;
        },
        ok_inj made,
      )

  pub cart_moves : AreFrom i.loc plan.moves
  cart_moves =
      plan_bill-AreFrom opened.store.master opened.prices i.loc pct (cart_of i.lines)
        (cart_of_lem i.lines).1

  -- Opening a session touches no shelf, no bill and no number of the bills.
  pub opened-kept :
      (opened.store ≡ s.store) × (opened.books ≡ s.books) × (opened.next_bill ≡ s.next_bill)
  unfolding session_for
  opened-kept = held_or_minted-kept s i.loc i.operator (find_session (is_open_at i.loc) s.sessions)

  -- A sale that goes through keeps every open hold of the tickets covered by what is on hand, at
  -- every cell, and the balances what a rebuild would make of them: it sells only what is free.
  pub post_sale-IsCovered :
      {bill : Bill} {after : Till}
      → IsCovered s.store
      → post_sale i s ≡ ok (bill, after)
      → IsCovered after.store
  unfolding write_bill
  post_sale-IsCovered {bill} {after} h done =
      let (phone, goes, same) = post_sale-Goes done in
      let before : IsCovered opened.store = rw opened-kept.0 h in
      let result : after_sale phone ≡ after = ap (λ r. r.1) same in
      rw (← result) (
        sold-IsCovered opened.store opened.next_bill i.operator i.loc plan.moves cart_moves before
          goes.covered)
