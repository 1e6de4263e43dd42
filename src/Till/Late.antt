-- ===== src/Till/Late.antt =====
-- The check of the shelves that `postSale` of apps/api/src/lib/sale.ts repeats with the moves posted.
use rch.Prelude.{
  ℕ, Bool-cases, ◌≡◌, ◌≢◌, inl, inr, true, Option, none, some, List, [], ◌∷◌, ℤ, ok, refuse,
  >>=-refusal, guard-refusal, guard_other, require_other, guard, require, ◌>>◌,
}
use rch.Ledger.Cache.{IsCached}
use rch.Billing.{Cart}
use rch.Credit.{PayerKind, payer_kind_for_tender}
use rch.Receivables.{Bill, Books}
use rch.Till.{
  Till, TillResult, lock_location, lost_under_lock, not_covered, no_location, outlet_closed,
  bad_phone, no_list, no_item, not_listed, not_available, only_left, no_price,
}
use rch.Till.Phone.{normalize_phone}
use rch.Till.Menu.{Sellable, assert_item, assert_items, sellable_at, assert_sellable, cart_of}
use rch.Till.Sale.{
  Payer, fits_tender, on_roster, SaleInput, customer_phone, assert_payer, assert_credit, took_from,
  is_covered, is_still_covered, write_bill, post_sale,
}
use rch.Till.Shelf.{is_covered-still}
use rch.Till.Posting.{opened, plan, limit, after_sale, printed, cart_moves, opened-kept}

module _ (i : SaleInput) (s : Till) where
  still_covered :
      (phone : Option (List ℕ))
      → IsCached s.store.ledger
      → is_covered (opened i s).store i.loc (took_from [] (plan i s).moves) ≡ true
      → is_still_covered (after_sale i s phone).store i.loc (took_from [] (plan i s).moves) ≡ true
  unfolding write_bill
  still_covered phone h =
      let cached : IsCached (opened i s).store.ledger = rw (opened-kept i s).0 h in
      is_covered-still (opened i s).store (opened i s).next_bill i.operator i.loc (plan i s).moves
        (cart_moves i s) cached

  -- The end of the sale, from the check of the shelves on.
  abbrev last_steps : Option (List ℕ) → TillResult (Bill × Till)
  last_steps phone = do
    guard (is_covered (opened i s).store i.loc (took_from [] (plan i s).moves)) not_covered
    guard (is_still_covered (after_sale i s phone).store i.loc (took_from [] (plan i s).moves))
        lost_under_lock
    ok (printed i s phone, after_sale i s phone)

  last_check :
      (phone : Option (List ℕ))
      → IsCached s.store.ledger
      → last_steps phone ≢ refuse lost_under_lock
  last_check phone h =
      elim (Bool-cases (is_covered (opened i s).store i.loc (took_from [] (plan i s).moves))) [
        | inl fits ↦ rw (fits, still_covered phone h fits) (λ same. cc)
        | inr short ↦ rw short (λ same. cc)
      ]

  fits_tender_other :
      (k : Option PayerKind) (p : Option Payer) → fits_tender k p ≢ refuse lost_under_lock
  fits_tender_other none p = λ same. cc
  fits_tender_other (some k) none = λ same. cc
  fits_tender_other (some k) (some p) = guard_other _ _ _ (λ e. cc)

  on_roster_other : (t : Till) (p : Option Payer) → on_roster t p ≢ refuse lost_under_lock
  on_roster_other t none = λ same. cc
  on_roster_other t (some p) = guard_other _ _ _ (λ e. cc)

  customer_phone_other : (p : List ℕ) → customer_phone p ≢ refuse lost_under_lock
  customer_phone_other [] = λ same. cc
  customer_phone_other (c ∷ cs) =
      >>=-refusal lost_under_lock (require (normalize_phone (c ∷ cs)) bad_phone) _
        (require_other lost_under_lock _ bad_phone (λ e. cc)) (λ _ _ same. cc)

  assert_credit_other :
      (b : Books) (p : Option Payer) (t : ℤ) (l : Option ℤ)
      → assert_credit b p t l ≢ refuse lost_under_lock
  unfolding assert_credit
  assert_credit_other b none t l = λ same. cc
  assert_credit_other b (some p) t l = guard_other _ _ _ (λ e. cc)

  assert_items_other : (x : Sellable) (cart : Cart) → assert_items x cart ≢ refuse lost_under_lock
  unfolding assert_items assert_item
  assert_items_other x [] = λ same. cc
  assert_items_other x ((it, n) ∷ cart) =
      >>=-refusal lost_under_lock (assert_item x (it, n)) _
        (guard-refusal lost_under_lock _ (no_item it) _ (λ e. cc)
          (guard-refusal lost_under_lock _ (not_listed it) _ (λ e. cc)
            (guard-refusal lost_under_lock _ (not_available it) _ (λ e. cc)
              (guard-refusal lost_under_lock _ (only_left it) _ (λ e. cc)
                (guard_other lost_under_lock _ (no_price it) (λ e. cc))))))
        (λ _ _. assert_items_other x cart)

  -- Under the locks of the sale its first check of the shelves is the last word: where the balances
  -- are what a rebuild would make of them, no sale is turned away by the check that repeats it with
  -- the moves posted.
  pub post_sale-never_late : IsCached s.store.ledger → post_sale i s ≢ refuse lost_under_lock
  unfolding post_sale assert_payer assert_sellable
  post_sale-never_late h =
      >>=-refusal lost_under_lock (lock_location s.store.master i.loc) _
        (require_other lost_under_lock _ no_location (λ e. cc))
        (λ outlet found.
          guard-refusal lost_under_lock _ outlet_closed _ (λ e. cc)
            (>>=-refusal lost_under_lock (customer_phone i.phone) _ (customer_phone_other i.phone)
              (λ phone read.
                >>=-refusal lost_under_lock (assert_payer (opened i s) i.tender i.payer) _
                  (>>=-refusal lost_under_lock
                    (fits_tender (payer_kind_for_tender i.tender) i.payer) _
                    (fits_tender_other _ i.payer) (λ _ _. on_roster_other (opened i s) i.payer))
                  (λ _ _.
                    >>=-refusal lost_under_lock
                      (assert_sellable (sellable_at (opened i s) i.loc) (cart_of i.lines)) _
                      (guard-refusal lost_under_lock _ no_list _ (λ e. cc) (assert_items_other _ _))
                      (λ _ _.
                        >>=-refusal lost_under_lock
                          (assert_credit (opened i s).books i.payer (plan i s).tot (limit i s)) _
                          (assert_credit_other (opened i s).books i.payer (plan i s).tot
                            (limit i s))
                          (λ _ _. last_check phone h))))))
