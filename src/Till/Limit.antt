-- ===== src/Till/Limit.antt =====
-- The ceiling of an account after a sale: `postSale` of apps/api/src/lib/sale.ts and
-- `outstandingFor` of apps/api/src/lib/credit.ts.
use rch.Prelude.{
  ℕ, ◌≡◌, refl, ap, Bool, true, false, not, Option, some, List, ==_iff, All, arith, ℤ, pos, ◌+ℤ◌,
  ◌-ℤ◌, ◌≤ℤ◌, int_laws, le_of_not_ltb, max_ℤ, round2, round2_self, round2-IsCenti, IsCenti,
  add-IsCenti, sub-IsCenti, ok, guard,
}
use rch.Credit.{breaches_credit, is_account_tender}
use rch.Receivables.{
  Bill, Books, kind_code, charges, settles, charged_for, settled_for, outstanding_for,
}
use rch.Receivables.Recording.{filter-IsCenti, filter-snoc}
use rch.Till.{Till, over_limit}
use rch.Till.Sale.{SaleInput, Payer, post_sale, assert_credit, write_bill}
use rch.Till.Posting.{plan, printed, after_sale, limit, opened-kept, post_sale-Goes}

round2_shift : (a x : ℤ) → IsCenti a → round2 (a +ℤ x) ≡ a +ℤ round2 x
unfolding round2 ◌+ℤ◌
round2_shift a x h = ground arith

max-IsCenti : (a b : ℤ) → IsCenti a → IsCenti b → IsCenti (max_ℤ a b)
unfolding max_ℤ
max-IsCenti a b ha hb = ground arith

within :
    (charged settled total l : ℤ)
    → IsCenti charged
    → IsCenti settled
    → pos 0 ≤ℤ l
    → breaches_credit (max_ℤ (pos 0) (round2 (charged -ℤ settled))) total (some l) ≡ false
    → max_ℤ (pos 0) (round2 ((charged +ℤ round2 total) -ℤ settled)) ≤ℤ l
unfolding breaches_credit
within charged settled total l hc hs low fits =
    let due = sub-IsCenti charged settled hc hs in
    let owed = max-IsCenti (pos 0) (charged -ℤ settled) (refl, refl) due in
    let after =
      sub-IsCenti (charged +ℤ round2 total) settled
        (add-IsCenti charged (round2 total) hc (round2-IsCenti total)) hs in
    let room : max_ℤ (pos 0) (charged -ℤ settled) +ℤ round2 total ≤ℤ l =
      rw (← round2_shift (max_ℤ (pos 0) (charged -ℤ settled)) total owed)
        (le_of_not_ltb l _ (rw (← round2_self (charged -ℤ settled) due) fits)) in
    rw (round2_self ((charged +ℤ round2 total) -ℤ settled) after) (omega (int_laws, room, low))

not_guarded : (b : Bool) → guard (not b) over_limit ≡ ok tt → b ≡ false
not_guarded true h = cc
not_guarded false h = refl

credit_left :
    (books : Books) (p : Payer) (total : ℤ) (ceiling : Option ℤ)
    → assert_credit books (some p) total ceiling ≡ ok tt
    → breaches_credit (outstanding_for books p.kind p.id) total ceiling ≡ false
unfolding assert_credit
credit_left books p total ceiling h =
    not_guarded (breaches_credit (outstanding_for books p.kind p.id) total ceiling) h

-- The bill is charged to its payer.
own_charge :
    (i : SaleInput) (s : Till) (phone : Option (List ℕ)) (p : Payer)
    → i.payer ≡ some p
    → is_account_tender i.tender ≡ true
    → charges p.kind p.id (printed i s phone) ≡ true
own_charge i s phone p named account =
    rw
      (
        named,
        account,
        (==_iff (kind_code p.kind) (kind_code p.kind)).1 refl,
        (==_iff p.id p.id).1 refl,
      )
      refl

-- A sale that is posted to an account never leaves its payer owing more than the ceiling that
-- applies to the payer. The totals and the amounts on the books are in whole paise, and the ceiling
-- is not below nothing.
pub post_sale-within_limit :
    (i : SaleInput) (s : Till) {bill : Bill} {after : Till} (p : Payer) (l : ℤ)
    → All (λ b. IsCenti b.total) s.books.bills
    → All (λ x. IsCenti x.amount) s.books.settlements
    → i.payer ≡ some p
    → is_account_tender i.tender ≡ true
    → limit i s ≡ some l
    → pos 0 ≤ℤ l
    → post_sale i s ≡ ok (bill, after)
    → outstanding_for after.books p.kind p.id ≤ℤ l
unfolding write_bill outstanding_for
post_sale-within_limit i s {bill} {after} p l hb hs named account ceiling low done =
    let (phone, goes, same) = post_sale-Goes i s done in
    let result : after_sale i s phone ≡ after = ap (λ r. r.1) same in
    let hc = filter-IsCenti (charges p.kind p.id) (λ b. b.total) s.books.bills hb in
    let hd = filter-IsCenti (settles p.kind p.id) (λ x. x.amount) s.books.settlements hs in
    let kept = (opened-kept i s).1 in
    let credit = goes.credit_left in
    let fits : assert_credit s.books (some p) (plan i s).tot (some l) ≡ ok tt = cc in
    let room = credit_left s.books p (plan i s).tot (some l) fits in
    let sum =
      filter-snoc (charges p.kind p.id) (λ b. b.total) s.books.bills (printed i s phone)
        (own_charge i s phone p named account) in
    rw (← result, kept, sum)
      (within (charged_for s.books p.kind p.id) (settled_for s.books p.kind p.id) (plan i s).tot l
        hc hd low room)
