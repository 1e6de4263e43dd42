-- ===== src/Till/Void.antt =====
-- Taking a bill back: `voidBill` of apps/api/src/modules/pos/service.ts, with the reads of its
-- repo, `moveQrOrder` of apps/api/src/lib/qr-orders.ts and `queueRefund` of lib/refunds.ts.
use rch.Prelude.{
  ℕ, ◌+◌, Bool, true, false, ◌&&◌, not, Option, none, some, is_some, List, [], ◌∷◌, ◌++◌, ◌==◌,
  if◌then◌else◌, any, filter, length, ℤ, pos, ◌-ℤ◌, ok, guard, require, ◌>>=◌, ◌>>◌,
}
use rch.Workflow.Status.{QrOrderStatus, RefundStatus, qr_order_coded, refund_coded}
use rch.Workflow.Table.{can_transition}
use rch.Workflow.Tables.{qr_order_transitions}
use rch.Ledger.{bill_ref, Move, MoveKind, sale, reversal, post_moves}
use rch.Receivables.{Bill, till, qr, Books, live_settlement}
use rch.Tickets.{put, bill_voided, qr_order_is}
use rch.Tickets.Rows.{with_ledger, logged}
use rch.Till.{
  Session, QrOrder, RefundReason, void_reason, Refund, Till, TillResult, lock_location, assert_open,
  no_bill, own_bill, no_reason, already_voided, another_day, settled, session_closed, order_moved,
}
use rch.Till.Sale.{find_session}

abbrev pub find_bill : List Bill → ℕ → Option Bill
find_bill [] num = none
find_bill (b ∷ bs) num = let rest = find_bill bs num in if b.no == num then some b else rest

-- A line of the bill in a settlement that is not voided.
unfoldable pub is_settled : Books → ℕ → Bool
is_settled books num =
    any (λ l. (l.bill_no == num) && is_some (live_settlement books.settlements l.settlement_id))
      books.settlement_lines

abbrev is_sale : MoveKind → Bool
is_sale sale = true
is_sale kind = false

abbrev pub is_sale_of : ℕ → Move → Bool
is_sale_of num m = (m.ref_type == bill_ref) && (m.ref_id == num) && is_sale m.kind

-- The reversals of the bill's own moves. A move's id is its place in the ledger.
unfoldable pub reversals_from : ℕ → ℕ → ℕ → List Move → List Move
reversals_from num by id [] = []
reversals_from num by id (m ∷ ms) =
    let rest = reversals_from num by (id + 1) ms in
    if is_sale_of num m
    then record {
      loc = m.loc;
      it = m.it;
      qty = pos 0 -ℤ m.qty;
      kind = reversal;
      ref_type = bill_ref;
      ref_id = num;
      by = some by;
      reverses = some id;
    }
      ∷ rest
    else rest

abbrev pub void_bills : ℕ → List Bill → List Bill
void_bills num [] = []
void_bills num (b ∷ bs) =
    (if b.no == num then record b { voided = true } else b) ∷ void_bills num bs

unfoldable pub stamp_voided : ℕ → Books → Books
stamp_voided num books = record books { bills = void_bills num books.bills }

-- A bill of a QR order takes the order with it and owes the payment back.
abbrev pub queue_refund : ℕ → ℕ → ℤ → RefundReason → Option ℕ → ℕ → List Refund → List Refund
queue_refund order payment amount reason num at refunds =
    refunds
    ++ record {
      qr_order = order;
      number = length (filter (λ r. r.qr_order == order) refunds) + 1;
      bill_no = num;
      payment = payment;
      amount = amount;
      reason = reason;
      status = RefundStatus.pending;
      attempts = 0;
      next_attempt_at = at;
      last_error = none;
      rzp_refund = none;
      processed_at = none;
    }
      ∷ []

abbrev refund_paid : ℕ → Bill → ℕ → ℕ → QrOrder → Option ℕ → Till → TillResult Till
refund_paid at b by id order none s = ok s
refund_paid at b by id order (some payment) s = do
  guard (can_transition qr_order_transitions order.status QrOrderStatus.voided) order_moved
  ok (record s {
    qr_orders = put id (record order { status = QrOrderStatus.voided }) s.qr_orders;
    refunds = queue_refund id payment b.total void_reason (some b.no) at s.refunds;
    store = logged id (qr_order_is QrOrderStatus.voided) by s.store;
  })

abbrev with_order : ℕ → Bill → ℕ → ℕ → Option QrOrder → Till → TillResult Till
with_order at b by id none s = ok s
with_order at b by id (some order) s = refund_paid at b by id order order.rzp_payment s

abbrev is_qr : Bill → Bool
is_qr b = elim b.source [ till ↦ false | qr ↦ true ]

abbrev pub refund_order : ℕ → Bill → ℕ → Option ℕ → Till → TillResult Till
refund_order at b by none s = ok s
refund_order at b by (some id) s =
    if is_qr b then with_order at b by id (s.qr_orders id) s else ok s

abbrev is_closed : Option Session → Bool
is_closed none = false
is_closed (some x) = is_some x.closed

-- A bill from before the register has no session.
abbrev pub day_closed : List Session → Option ℕ → Bool
day_closed sessions none = false
day_closed sessions (some id) = is_closed (find_session (λ x. x.id == id) sessions)

-- The stamp, the reversals and the line of the trail.
unfoldable pub write_void : ℕ → ℕ → List ℕ → Till → Till
write_void num by reason s = record s {
  store = logged num (bill_voided reason) by (
      with_ledger (post_moves (reversals_from num by 0 s.store.ledger.moves) s.store.ledger)
        s.store);
  books = stamp_voided num s.books;
}

-- `ist_date` is the hospital's date of an instant, `reason` the reason without the blanks around
-- it.
unfoldable pub void_bill : (ℕ → ℕ) → ℕ → ℕ → List ℕ → ℕ → Till → TillResult Till
void_bill ist_date by num reason at s = do
  bill ← require (find_bill s.books.bills num) no_bill
  guard (not (bill.operator == by)) own_bill
  guard (not (length reason == 0)) no_reason
  guard (not bill.voided) already_voided
  guard (ist_date bill.at == ist_date at) another_day
  guard (not (is_settled s.books num)) settled
  outlet ← lock_location s.store.master bill.loc
  assert_open outlet
  guard (not (day_closed s.sessions bill.session)) session_closed
  refund_order at bill by bill.qr_order (write_void num by reason s)
