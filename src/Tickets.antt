-- ===== src/Tickets.antt =====
-- Tickets, the paper that lets stock go from one location to another: the rows that
-- apps/api/src/lib/tickets.ts and modules/tickets/service.ts write, and the writes of the first.
-- A transaction is a function on the store; one that is refused leaves the store as it was.
pub mod Rows
pub mod Service
pub mod Transfer
pub mod Code
pub mod Lock
pub mod Movement
pub mod Cover
pub mod Promise
pub mod Sending
pub mod Landing
pub mod Receiving
pub mod Withdrawing
mod Tests
use rch.Prelude.{
  ℕ, ◌+◌, Bool, true, false, ◌&&◌, not, Option, none, some, List, [], ◌∷◌, ◌++◌, ◌==◌,
  if◌then◌else◌, filter, ℤ, pos, ◌+ℤ◌, ◌==ℤ◌, round3,
}
use rch.Workflow.Status.{TktStatus, ReqStatus, PordStatus, ShopAskStatus, QrOrderStatus}
use rch.Catalog.{Master}
use rch.Purchasing.Approval.{ApprovalLine}
use rch.Ledger.{Ledger}
use rch.Reservations.{Reservation, ReservationRow, reserve, release_for_ticket}

pub data TicketRefType : Type 0 where
  request prod_order shop_ask shop_transfer direct : TicketRefType

-- What `ref_id` holds: a document's number, or one of the two labels of NO_DOCUMENT.
pub data RefId : Type 0 where
  document : ℕ → RefId
  shop_transfer_label direct_issue_label : RefId

pub record TicketLine : Type 0 where
  pub it : ℕ
  pub qty : ℤ

-- `otp` is the bytes of the code. The instants of a ticket and who issued it are left out.
pub record Ticket : Type 0 where
  pub ref_type : TicketRefType
  pub req : RefId
  pub from : ℕ
  pub to : ℕ
  pub st : TktStatus
  pub otp : List ℕ
  pub otp_attempts : ℕ
  pub lines : List TicketLine

-- The documents behind a ticket, as far as its writes read and change them.
pub record StockRequest : Type 0 where
  pub status : ReqStatus
  pub ticket : Option ℕ
  pub lines : List ApprovalLine

pub record ShopAsk : Type 0 where
  pub status : ShopAskStatus
  pub granted : Option ℤ
  pub ticket : Option ℕ

pub data HistoryEvent : Type 0 where
  ticket_issued ticket_handed_over ticket_received : HistoryEvent
  ticket_cancelled : List ℕ → HistoryEvent
  request_is : ReqStatus → HistoryEvent
  order_is : PordStatus → HistoryEvent
  bill_voided : List ℕ → HistoryEvent
  qr_order_is : QrOrderStatus → HistoryEvent

pub record HistoryRow : Type 0 where
  pub doc : ℕ
  pub event : HistoryEvent
  pub by : ℕ

-- `next_ticket` is the counter of the series.
pub record Store : Type 0 where
  pub master : Master
  pub ledger : Ledger
  pub rsv : List Reservation
  pub tickets : ℕ → Option Ticket
  pub requests : ℕ → Option StockRequest
  pub prod_orders : ℕ → Option PordStatus
  pub shop_asks : ℕ → Option ShopAsk
  pub history : List HistoryRow
  pub next_ticket : ℕ

abbrev pub put {ℓ} : {A : Type ℓ} → ℕ → A → (ℕ → Option A) → ℕ → Option A
put key a rows k = if k == key then some a else rows k

abbrev pub with_status : TktStatus → Ticket → Ticket
with_status st t = record {
  ref_type = t.ref_type;
  req = t.req;
  from = t.from;
  to = t.to;
  st = st;
  otp = t.otp;
  otp_attempts = t.otp_attempts;
  lines = t.lines;
}

abbrev pub counted_once : Ticket → Ticket
counted_once t = record {
  ref_type = t.ref_type;
  req = t.req;
  from = t.from;
  to = t.to;
  st = t.st;
  otp = t.otp;
  otp_attempts = t.otp_attempts + 1;
  lines = t.lines;
}

pub data TicketRefusal : Type 0 where
  no_ticket no_item no_location not_yours wrong_state locked no_longer_there : TicketRefusal
  no_reason document_moved no_quantity not_outlets closed not_enough_free nothing_to_send :
      TicketRefusal

-- `counted` is the one refusal that is committed.
pub data Outcome : Type 0 where
  done : Store → Outcome
  counted : Store → Outcome
  refused : TicketRefusal → Outcome

-- The store that a transaction leaves behind.
unfoldable pub committed : Store → Outcome → Store
committed s (done s') = s'
committed s (counted s') = s'
committed s (refused r) = s

-- `folded.set(l.it, …)`: a key keeps the place of its first line.
unfoldable pub fold_line : TicketLine → List TicketLine → List TicketLine
fold_line l [] = record { it = l.it; qty = round3 (pos 0 +ℤ l.qty) } ∷ []
fold_line l (f ∷ fs) =
    let rest = fold_line l fs in
    if f.it == l.it then record { it = f.it; qty = round3 (f.qty +ℤ l.qty) } ∷ fs else f ∷ rest

unfoldable pub fold_lines : List TicketLine → List TicketLine → List TicketLine
fold_lines folded [] = folded
fold_lines folded (l ∷ ls) = fold_lines (fold_line l folded) ls

unfoldable pub sent_lines : List TicketLine → List TicketLine
sent_lines lines = filter (λ l. not (l.qty ==ℤ pos 0)) (fold_lines [] lines)

pub record TicketDraft : Type 0 where
  pub ref_type : TicketRefType
  pub ref_id : RefId
  pub from : ℕ
  pub to : ℕ
  pub lines : List TicketLine
  pub by : ℕ

abbrev pub hold_lines : ℕ → ℕ → List TicketLine → List ReservationRow
hold_lines id from [] = []
hold_lines id from (l ∷ ls) =
    record { loc = from; it = l.it; qty = l.qty; ticket_id = id } ∷ hold_lines id from ls

abbrev pub written : TicketDraft → ℕ → List ℕ → Store → List TicketLine → Outcome
written d id otp s [] = refused nothing_to_send
written d id otp s (l ∷ ls) =
    let (ledger, rsv) = reserve s.ledger s.rsv (hold_lines id d.from (l ∷ ls)) in
    done (record {
      master = s.master;
      ledger = ledger;
      rsv = rsv;
      tickets =
          put id
            (record {
              ref_type = d.ref_type;
              req = d.ref_id;
              from = d.from;
              to = d.to;
              st = TktStatus.issued;
              otp = otp;
              otp_attempts = 0;
              lines = l ∷ ls;
            })
            s.tickets;
      requests = s.requests;
      prod_orders = s.prod_orders;
      shop_asks = s.shop_asks;
      history = s.history ++ record { doc = id; event = ticket_issued; by = d.by } ∷ [];
      next_ticket = s.next_ticket;
    })

-- The ticket `id` with its code, its lines folded, and the stock held where it is sent from.
unfoldable pub write_ticket : TicketDraft → ℕ → List ℕ → Store → Outcome
write_ticket d id otp s = written d id otp s (sent_lines d.lines)

-- Withdraws the ticket: the hold goes, nothing moves.
unfoldable pub void_ticket : ℕ → Ticket → List ℕ → ℕ → Store → Store
void_ticket id t reason by s = record {
  master = s.master;
  ledger = s.ledger;
  rsv = release_for_ticket id s.rsv;
  tickets = put id (with_status TktStatus.cancelled t) s.tickets;
  requests = s.requests;
  prod_orders = s.prod_orders;
  shop_asks = s.shop_asks;
  history = s.history ++ record { doc = id; event = ticket_cancelled reason; by = by } ∷ [];
  next_ticket = s.next_ticket;
}
