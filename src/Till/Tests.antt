-- ===== src/Till/Tests.antt =====
-- The theorems on sales at a concrete till: outlet 5 sells tea, item 1, at 10.00, with five cups on
-- the shelf, and the consultant 4 has a ceiling of 100.00.
use rch.Prelude.{
  All, List, false, ℕ, ◌≡◌, ◌≢◌, ◌↔◌, refl, true, none, some, [], ◌∷◌, ◌*◌, ◌==◌, if◌then◌else◌,
  pos, ◌+ℤ◌, ◌-ℤ◌, ◌≤ℤ◌, one, ◌&&◌, Bool-cases, inl, inr, arith, All, is_some, ok, refuse, max_ℤ,
  round2, round3,
}
use rch.Catalog.{
  mrp_good, Item, Location, outlet_type, Master, or_zero, qty, resv, avail, is_on_off,
}
use rch.Ledger.{Move, opening, Ledger, post_moves, real, delta_from, rebuild_balances}
use rch.Reservations.{reserved_at}
use rch.Reservations.Held.{held}
use rch.Ledger.Cache.{IsCached, post_moves-IsCached}
use rch.Credit.{
  doctor, doctor_credit, PayerKind, payer_kind_for_tender, is_account_tender, party_of,
  breaches_credit,
}
use rch.Billing.{
  list_of, avail_of, bill_line, bill_lines, credit_limit_for, discount_on, discount_pct_for,
  plan_bill, price_of,
}
use rch.Receivables.{BillSource, outstanding_for}
use rch.Tickets.{Store}
use rch.Tickets.Cover.{IsCovered}
use rch.Till.{Till, lost_under_lock, only_left}
use rch.Till.Phone.{normalize_phone}
use rch.Till.Menu.{
  assert_items, assert_item, cart_from, add_to, cover_of, cart_of, sellable_at, assert_sellable,
}
use rch.Till.Sale.{
  SaleInput, post_sale, assert_payer, session_for, assert_credit, is_covered, is_still_covered,
  terms_for, took_from, write_bill,
}
use rch.Till.Void.{void_bill}
use rch.Till.Cart.{IsKeyed, IsMilliCart, total_of, scanned, cart_of_lem}
use rch.Till.Agree.{offered, assert_sellable_iff}
use rch.Till.Posting.{printed, after_sale, post_sale-IsCovered}
use rch.Till.Late.{post_sale-never_late}
use rch.Till.Limit.{post_sale-within_limit}
use rch.Till.Numbers.{IsNumbered}
use rch.Till.Restored.{void_bill-post_sale, post_sale-IsNumbered}
use rch.Workflow.Status.{RefundStatus}
use rch.Till.{duplicate, Refund}
use rch.Till.Void.{queue_refund}
use rch.Till.Due.{HaveOwnIds}
use rch.Till.Refunds.{claimed, is_refund, find_refund, claim_due_refunds}
use rch.Till.Sends.{untouched, and_then, owed, taken_up, processed_is_kept}

abbrev tea : Item
tea = record { t = mrp_good; gst = 5 * one; mrp = some (pos (10 * one)); src = none }

abbrev canteen : Location
canteen = record { type = outlet_type; list = some 7; active = true }

abbrev master : Master
master = record {
  items = λ it. if it == 1 then some tea else none;
  locations = λ l. if l == 5 then some canteen else none;
}

abbrev delivered : Move
delivered = record {
  loc = 5;
  it = 1;
  qty = pos (5 * one);
  kind = opening;
  ref_type = 9;
  ref_id = 0;
  by = none;
  reverses = none;
}

abbrev empty : Ledger
empty = record { moves = []; balances = λ l i. none }

empty-IsCached : IsCached empty
unfolding rebuild_balances
empty-IsCached = record { cached = λ l i. refl; decimals = tt }

abbrev store : Store
store = record {
  master = master;
  ledger = post_moves (delivered ∷ []) empty;
  rsv = [];
  tickets = λ id. none;
  requests = λ id. none;
  prod_orders = λ id. none;
  shop_asks = λ id. none;
  history = [];
  next_ticket = 0;
}

abbrev till : Till
till = record {
  store = store;
  menu = λ l. 1 ∷ [];
  ovr = λ l it. none;
  prices = λ list it. some (pos (12 * one));
  class_terms = λ cls. none;
  payer_terms = λ kind id. some (record { pct = none; limit = some (pos (100 * one)) });
  active = λ kind id. true;
  sessions = [];
  books = record { bills = []; settlements = []; settlement_lines = []; next_id = 0 };
  qr_orders = λ id. none;
  refunds = [];
  next_bill = 1;
  next_session = 1;
}

-- Two scans of tea, on the account of consultant 4.
abbrev input : SaleInput
input = record {
  loc = 5;
  operator = 3;
  lines = (1, pos one) ∷ (1, pos one) ∷ [];
  tender = doctor_credit;
  payer = some (record { kind = doctor; id = 4 });
  phone = [];
  source = BillSource.till;
  qr_order = none;
  at = 100;
}

sold : post_sale input till ≡ ok (printed input till none, after_sale input till none)
unfolding post_sale assert_payer payer_kind_for_tender session_for assert_sellable sellable_at
    assert_items cart_of cart_from add_to assert_item avail_of is_on_off avail ◌-ℤ◌ post_moves
    round3 bill_line bill_lines credit_limit_for discount_on discount_pct_for plan_bill price_of qty
    resv breaches_credit is_account_tender party_of delta_from real max_ℤ ◌+ℤ◌ round2
    outstanding_for reserved_at cover_of normalize_phone assert_credit is_covered is_still_covered
    terms_for took_from write_bill
sold = refl

-- The bill comes to twenty rupees, and three cups are left.
twenty_charged :
    ((printed input till none).total ≡ pos (20 * one))
    × (or_zero ((after_sale input till none).store.ledger.balances 5 1) ≡ pos (3 * one))
unfolding session_for cart_of cart_from add_to ◌-ℤ◌ post_moves round3 bill_line bill_lines
    credit_limit_for discount_on discount_pct_for plan_bill price_of party_of delta_from real ◌+ℤ◌
    round2 terms_for write_bill
twenty_charged = (refl, refl)

-- A sixth cup is not there.
sixth_refused :
    post_sale (record input { lines = (1, pos (6 * one)) ∷ [] }) till ≡ refuse (only_left 1)
unfolding post_sale assert_payer payer_kind_for_tender session_for assert_sellable sellable_at
    assert_items cart_of cart_from add_to assert_item avail_of is_on_off avail ◌-ℤ◌ post_moves
    round3 price_of qty resv delta_from real ◌+ℤ◌ cover_of
sixth_refused = refl

shelves_hold : (l i : ℕ) → held store.rsv l i ≤ℤ or_zero (store.ledger.balances l i)
unfolding post_moves real delta_from round3 ◌+ℤ◌
shelves_hold l i = elim (Bool-cases ((5 == l) && (1 == i))) [
  | inl e ↦ rw e (omega arith)
  | inr e ↦ rw e (omega arith)
]

store-IsCovered : IsCovered store
store-IsCovered = record {
  cached = (post_moves-IsCached (delivered ∷ []) empty empty-IsCached).0;
  holds = tt;
  covered = shelves_hold;
  lines = λ id t missing. cc;
  backed = λ id t missing. cc;
}

till-IsNumbered : IsNumbered till
unfolding post_moves real round3
till-IsNumbered = record {
  cached = (post_moves-IsCached (delivered ∷ []) empty empty-IsCached).0;
  bills = tt;
  moves = (λ e. omega (arith, e), tt);
  lines = tt;
  keyed = tt;
  ids = tt;
}

cart_of_lem_example :
    IsKeyed (cart_of input.lines)
    × IsMilliCart (cart_of input.lines)
    × ((it : ℕ) → total_of it (cart_of input.lines) ≡ scanned it input.lines)
cart_of_lem_example = cart_of_lem input.lines

assert_sellable_iff_example :
    (assert_sellable (sellable_at till 5) (cart_of input.lines) ≡ ok tt) ↔ (
      (is_some (list_of (master.locations 5)) ≡ true)
      × All (λ line. offered (sellable_at till 5) line ≡ true) (cart_of input.lines))
unfolding sellable_at
assert_sellable_iff_example = assert_sellable_iff (sellable_at till 5) (cart_of input.lines)

post_sale-never_late_example : post_sale input till ≢ refuse lost_under_lock
post_sale-never_late_example = post_sale-never_late input till till-IsNumbered.cached

post_sale-IsCovered_example : IsCovered (after_sale input till none).store
post_sale-IsCovered_example = post_sale-IsCovered input till store-IsCovered sold

post_sale-IsNumbered_example : IsNumbered (after_sale input till none)
post_sale-IsNumbered_example = post_sale-IsNumbered input till till-IsNumbered sold

post_sale-within_limit_example :
    outstanding_for (after_sale input till none).books doctor 4 ≤ℤ pos (100 * one)
unfolding terms_for credit_limit_for party_of session_for is_account_tender payer_kind_for_tender
post_sale-within_limit_example =
    post_sale-within_limit input till (record { kind = doctor; id = 4 }) (pos (100 * one)) tt tt
      refl refl refl (omega arith) sold

void_bill-post_sale_example :
    (undone : Till) × (void_bill
        (λ at. at)
        8
        (printed input till none).no
        (120 ∷ [])
        100
        (after_sale input till none)
      ≡ ok undone)
    × ((l it : ℕ)
        → or_zero (undone.store.ledger.balances l it) ≡ or_zero (till.store.ledger.balances l it))
    × ((kind : PayerKind) (payer : ℕ)
        → outstanding_for undone.books kind payer ≡ outstanding_for till.books kind payer)
void_bill-post_sale_example =
    void_bill-post_sale (λ at. at) input till 8 (120 ∷ []) 100 till-IsNumbered sold refl
      (λ e. omega (arith, e)) (λ e. cc) refl

abbrev reached : Refund
reached = record {
  qr_order = 4;
  number = 1;
  bill_no = none;
  payment = 8;
  amount = pos (20 * one);
  reason = duplicate;
  status = RefundStatus.processed;
  attempts = 1;
  next_attempt_at = 5;
  last_error = none;
  rzp_refund = some 6;
  processed_at = some 7;
}

abbrev paid_back : List Refund
paid_back = reached ∷ []

-- A second refund of the order is queued, and the worker claims what is due.
abbrev queue_after : List Refund
queue_after =
    (claim_due_refunds (λ a b. false) 10 20
      (queue_refund 4 8 (pos one) duplicate none 9 paid_back)).1

queue_after-HaveOwnIds : HaveOwnIds queue_after
unfolding claim_due_refunds claimed
queue_after-HaveOwnIds = ((refl, tt), (tt, tt))

processed_is_kept_example :
    ((r : Refund) × (find_refund (4, 1) queue_after ≡ some r)
      × (r.status ≡ RefundStatus.processed)
      × (r.amount ≡ pos (20 * one))
      × (r.processed_at ≡ some 7))
    × All
        (λ c. (c.status ≡ RefundStatus.pending) × (is_refund (4, 1) c ≡ false))
        (claim_due_refunds (λ a b. false) 90_000 20 queue_after).0
processed_is_kept_example =
    processed_is_kept 4 1 (pos (20 * one)) (some 7) (λ a b. false) 90_000 20
      (and_then paid_back (queue_refund 4 8 (pos one) duplicate none 9 paid_back) queue_after
        (and_then paid_back paid_back (queue_refund 4 8 (pos one) duplicate none 9 paid_back)
          (untouched paid_back) (owed 4 8 (pos one) duplicate none 9))
        (taken_up (λ a b. false) 10 20))
      (reached, refl, refl, refl, refl) queue_after-HaveOwnIds
