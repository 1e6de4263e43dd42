-- ===== src/Tickets/Service.antt =====
-- The writes on tickets: apps/api/src/modules/tickets/service.ts.
use rch.Prelude.{
  ℕ, Bool, true, false, ◌&&◌, not, Option, none, some, List, [], ◌∷◌, ◌==◌, ltb, if◌then◌else◌,
  length, every, pos, ◌-ℤ◌, leb_ℤ,
}
use rch.Workflow.Status.{
  TktStatus, ReqStatus, PordStatus, ShopAskStatus, req_coded, tkt_coded, pord_coded, shop_ask_coded,
}
use rch.Workflow.Table.{can_transition}
use rch.Workflow.Tables.{
  ticket_transitions, request_transitions, prod_order_transitions, shop_ask_transitions,
}
use rch.Catalog.{or_zero}
use rch.Purchasing.Approval.{approved_status}
use rch.Ledger.{ticket_ref, Ledger, Move, ticket_in, ticket_out, post_moves, with_use_on_arrival}
use rch.Tickets.Rows.{
  with_ticket, with_ledger, released, logged, with_request, with_prod_order, with_shop_ask, linked,
}
use rch.Tickets.{
  TicketRefType, RefId, TicketLine, Ticket, StockRequest, ShopAsk, HistoryEvent, Store, with_status,
  counted_once, Outcome, done, counted, refused, void_ticket, no_ticket, not_yours, wrong_state,
  locked, no_longer_there, no_reason, document_moved, request, prod_order, shop_ask, shop_transfer,
  direct, ticket_handed_over, ticket_received, request_is, order_is,
}

pub record Claims : Type 0 where
  pub sub : ℕ
  pub loc : ℕ

-- `timingSafeEqual` compares byte by byte.
abbrev pub same_bytes : List ℕ → List ℕ → Bool
same_bytes [] [] = true
same_bytes [] (b ∷ bs) = false
same_bytes (a ∷ rest) [] = false
same_bytes (a ∷ rest) (b ∷ bs) = (a == b) && same_bytes rest bs

unfoldable pub otp_matches : List ℕ → List ℕ → Bool
otp_matches typed real = (length typed == length real) && same_bytes typed real

abbrev pub otp_attempts_max : ℕ
otp_attempts_max = 5

-- The request behind a ticket moves on where the table has the move.
abbrev pub move_request : ReqStatus → HistoryEvent → ℕ → Option (ℕ × StockRequest) → Store → Store
move_request st event by none s = s
move_request st event by (some (doc, r)) s =
    if can_transition request_transitions r.status st
    then logged doc event by
        (with_request doc (record { status = st; ticket = r.ticket; lines = r.lines }) s)
    else s

abbrev pub out_moves : Claims → ℕ → ℕ → List TicketLine → List Move
out_moves claims id from [] = []
out_moves claims id from (l ∷ ls) =
    record {
      loc = from;
      it = l.it;
      qty = pos 0 -ℤ l.qty;
      kind = ticket_out;
      ref_type = ticket_ref;
      ref_id = id;
      by = some claims.sub;
      reverses = none;
    }
    ∷ out_moves claims id from ls

abbrev pub in_moves : Claims → ℕ → ℕ → List TicketLine → List Move
in_moves claims id to [] = []
in_moves claims id to (l ∷ ls) =
    record {
      loc = to;
      it = l.it;
      qty = l.qty;
      kind = ticket_in;
      ref_type = ticket_ref;
      ref_id = id;
      by = some claims.sub;
      reverses = none;
    }
    ∷ in_moves claims id to ls

-- Everything after the moves of a handover.
abbrev pub collect : Claims → ℕ → Ticket → Store → Store
collect claims id t s =
    move_request ReqStatus.collected (request_is ReqStatus.collected) claims.sub
      (linked s.requests t.req)
      (logged id ticket_handed_over claims.sub
        (with_ticket id (with_status TktStatus.collected t) (released id s)))

abbrev pub none_below : Ledger → ℕ → List TicketLine → Bool
none_below ledger from lines =
    every (λ l. leb_ℤ (pos 0) (or_zero (ledger.balances from l.it))) lines

abbrev pub taken_out : Claims → ℕ → Ticket → Store → Store
taken_out claims id t s = with_ledger (post_moves (out_moves claims id t.from t.lines) s.ledger) s

abbrev pub handover_ticket : Claims → ℕ → List ℕ → Store → Option Ticket → Outcome
handover_ticket claims id typed s none = refused no_ticket
handover_ticket claims id typed s (some t) =
    if not (claims.loc == t.from)
    then refused not_yours
    else if not (can_transition ticket_transitions t.st TktStatus.collected)
    then refused wrong_state
    else if not (ltb t.otp_attempts otp_attempts_max)
    then refused locked
    else if not (otp_matches typed t.otp)
    then counted (with_ticket id (counted_once t) s)
    else if not (none_below (taken_out claims id t s).ledger t.from t.lines)
    then refused no_longer_there
    else done (collect claims id t (taken_out claims id t s))

unfoldable pub handover : Claims → ℕ → List ℕ → Store → Outcome
handover claims id typed s = handover_ticket claims id typed s (s.tickets id)

abbrev pub receive_ticket : Claims → ℕ → Store → Option Ticket → Outcome
receive_ticket claims id s none = refused no_ticket
receive_ticket claims id s (some t) =
    let moves = with_use_on_arrival s.master.items (in_moves claims id t.to t.lines) in
    let landed = with_ledger (post_moves moves s.ledger) s in
    if not (claims.loc == t.to)
    then refused not_yours
    else if not (can_transition ticket_transitions t.st TktStatus.received)
    then refused wrong_state
    else done (
        move_request ReqStatus.closed (request_is ReqStatus.received) claims.sub
          (linked s.requests t.req)
          (logged id ticket_received claims.sub
            (with_ticket id (with_status TktStatus.received t) landed)))

unfoldable pub receive : Claims → ℕ → Store → Outcome
receive claims id s = receive_ticket claims id s (s.tickets id)

-- What a cancellation does to the document behind the ticket.
abbrev pub put_back_request : ℕ → Option (ℕ × StockRequest) → Store → Outcome
put_back_request by none s = done s
put_back_request by (some (doc, r)) s =
    if not (req_coded.code r.status == req_coded.code ReqStatus.ticket_issued)
    then refused document_moved
    else done (
        logged doc (request_is (approved_status r.lines)) by (
          with_request doc
            (record { status = approved_status r.lines; ticket = none; lines = r.lines }) s))

abbrev pub put_back_order : ℕ → Option (ℕ × PordStatus) → Store → Outcome
put_back_order by none s = done s
put_back_order by (some (doc, st)) s =
    if not (can_transition prod_order_transitions st PordStatus.ready)
    then refused document_moved
    else done (logged doc (order_is PordStatus.ready) by (with_prod_order doc PordStatus.ready s))

abbrev pub put_back_ask : Option (ℕ × ShopAsk) → Store → Outcome
put_back_ask none s = done s
put_back_ask (some (doc, a)) s =
    if not (can_transition shop_ask_transitions a.status ShopAskStatus.asked)
    then refused document_moved
    else done (
        with_shop_ask doc (record { status = ShopAskStatus.asked; granted = none; ticket = none })
          s)

abbrev pub put_back : ℕ → TicketRefType → RefId → Store → Outcome
put_back by request req s = put_back_request by (linked s.requests req) s
put_back by prod_order req s = put_back_order by (linked s.prod_orders req) s
put_back by shop_ask req s = put_back_ask (linked s.shop_asks req) s
put_back by shop_transfer req s = done s
put_back by direct req s = done s

-- `reason` is the reason without the blanks around it.
abbrev pub cancel_ticket : Claims → ℕ → List ℕ → Store → Option Ticket → Outcome
cancel_ticket claims id reason s none = refused no_ticket
cancel_ticket claims id reason s (some t) =
    if not (claims.loc == t.from)
    then refused not_yours
    else if length reason == 0
    then refused no_reason
    else if not (can_transition ticket_transitions t.st TktStatus.cancelled)
    then refused wrong_state
    else put_back claims.sub t.ref_type t.req (void_ticket id t reason claims.sub s)

unfoldable pub cancel : Claims → ℕ → List ℕ → Store → Outcome
cancel claims id reason s = cancel_ticket claims id reason s (s.tickets id)
