-- ===== src/Tickets/Promise.antt =====
-- The writes of apps/api/src/modules/tickets/service.ts keep the promise behind every ticket.
use rch.Prelude.{
  [], ◌∷◌, ℕ, ◌≡◌, ◌↔◌, ◌<◌, refl, inl, inr, Bool, true, false, not, Option, none, some,
  Option-cases, List, ◌==◌, if◌then◌else◌, Bool-cases, length, ltb, All, pos, ◌≤ℤ◌, arith,
}
use rch.Workflow.Status.{
  TktStatus, ReqStatus, PordStatus, ShopAskStatus, tkt_coded, req_coded, pord_coded, shop_ask_coded,
}
use rch.Workflow.Table.{can_transition}
use rch.Workflow.Tables.{
  ticket_transitions, request_transitions, prod_order_transitions, shop_ask_transitions,
}
use rch.Tickets.{
  Ticket, TicketLine, TicketRefType, RefId, request, prod_order, shop_ask, shop_transfer, direct,
  StockRequest, ShopAsk, HistoryEvent, Store, Outcome, TicketRefusal, refused, committed,
  void_ticket,
}
use rch.Catalog.{or_zero}
use rch.Ledger.{post_moves}
use rch.Reservations.{release_for_ticket}
use rch.Reservations.Held.{held_nonneg}
use rch.Tickets.Rows.{linked}
use rch.Tickets.Code.{issued_iff, is_done, handover_done_iff}
use rch.Tickets.Cover.{
  IsCovered, collect-IsCoveredBy, land-IsCoveredBy, void-IsCoveredBy, count-IsCoveredBy,
}
use rch.Tickets.Service.{
  Claims, out_moves, otp_matches, otp_attempts_max, none_below, taken_out, move_request,
  put_back_request, put_back_order, put_back_ask, put_back, handover, receive, cancel,
}

-- A transaction that stops at a guard leaves what held before it.
pub guarded :
    (s : Store) (b : Bool) (r : TicketRefusal) (o : Outcome)
    → IsCovered s
    → (b ≡ true → IsCovered (committed s o))
    → IsCovered (committed s (if not b then refused r else o))
unfolding committed
guarded s true r o h k = k refl
guarded s false r o h k = h

move_request-IsCovered :
    (st : ReqStatus) (event : HistoryEvent) (by : ℕ) (r : Option (ℕ × StockRequest)) (s : Store)
    → IsCovered s
    → IsCovered (move_request st event by r s)
move_request-IsCovered st event by none s h = h
move_request-IsCovered st event by (some (doc, r)) s h =
    elim (Bool-cases (can_transition request_transitions r.status st)) [
      | inl e ↦ rw e h
      | inr e ↦ rw e h
    ]

put_back_request-IsCovered :
    (by : ℕ) (r : Option (ℕ × StockRequest)) (s v : Store)
    → IsCovered s
    → IsCovered v
    → IsCovered (committed s (put_back_request by r v))
unfolding committed
put_back_request-IsCovered by none s v h k = k
put_back_request-IsCovered by (some (doc, r)) s v h k =
    guarded s (req_coded.code r.status == req_coded.code ReqStatus.ticket_issued) _ _ h (λ e. k)

put_back_order-IsCovered :
    (by : ℕ) (r : Option (ℕ × PordStatus)) (s v : Store)
    → IsCovered s
    → IsCovered v
    → IsCovered (committed s (put_back_order by r v))
unfolding committed
put_back_order-IsCovered by none s v h k = k
put_back_order-IsCovered by (some (doc, st)) s v h k =
    guarded s (can_transition prod_order_transitions st PordStatus.ready) _ _ h (λ e. k)

put_back_ask-IsCovered :
    (r : Option (ℕ × ShopAsk)) (s v : Store)
    → IsCovered s
    → IsCovered v
    → IsCovered (committed s (put_back_ask r v))
unfolding committed
put_back_ask-IsCovered none s v h k = k
put_back_ask-IsCovered (some (doc, a)) s v h k =
    guarded s (can_transition shop_ask_transitions a.status ShopAskStatus.asked) _ _ h (λ e. k)

put_back-IsCovered :
    (by : ℕ) (t : TicketRefType) (req : RefId) (s v : Store)
    → IsCovered s
    → IsCovered v
    → IsCovered (committed s (put_back by t req v))
unfolding committed
put_back-IsCovered by request req s v h k =
    put_back_request-IsCovered by (linked v.requests req) s v h k
put_back-IsCovered by prod_order req s v h k =
    put_back_order-IsCovered by (linked v.prod_orders req) s v h k
put_back-IsCovered by shop_ask req s v h k = put_back_ask-IsCovered (linked v.shop_asks req) s v h k
put_back-IsCovered by shop_transfer req s v h k = k
put_back-IsCovered by direct req s v h k = k

-- Handing over keeps every open hold covered, whether it is done, refused, or refused with a wrong
-- code counted.
pub handover-IsCovered :
    (claims : Claims) (id : ℕ) (typed : List ℕ) (s : Store)
    → IsCovered s
    → IsCovered (committed s (handover claims id typed s))
unfolding committed handover
handover-IsCovered claims id typed s h = elim (Option-cases (s.tickets id)) [
  | inl missing ↦ rw missing h
  | inr (t, found) ↦ rw found (
      guarded s (claims.loc == t.from) _ _ h (λ own.
        guarded s (can_transition ticket_transitions t.st TktStatus.collected) _ _ h (λ issued.
          guarded s (ltb t.otp_attempts otp_attempts_max) _ _ h (λ few.
            elim (Bool-cases (otp_matches typed t.otp)) [
              | inl right ↦ rw right (
                  guarded s (none_below (taken_out claims id t s).ledger t.from t.lines) _ _ h
                    (λ enough.
                      move_request-IsCovered _ _ _ _ _
                        (collect-IsCoveredBy claims id t s h found ((issued_iff t.st).0 issued))))
              | inr wrong ↦ rw wrong (count-IsCoveredBy id t s h found)
            ]))))
]

-- Receiving keeps every open hold covered.
pub receive-IsCovered :
    (claims : Claims) (id : ℕ) (s : Store)
    → IsCovered s
    → IsCovered (committed s (receive claims id s))
unfolding committed receive
receive-IsCovered claims id s h = elim (Option-cases (s.tickets id)) [
  | inl missing ↦ rw missing h
  | inr (t, found) ↦ rw found (
      guarded s (claims.loc == t.to) _ _ h (λ own.
        guarded s (can_transition ticket_transitions t.st TktStatus.received) _ _ h
          (λ collected. move_request-IsCovered _ _ _ _ _ (land-IsCoveredBy claims id t s h found))))
]

-- Withdrawing a ticket keeps every open hold covered.
pub cancel-IsCovered :
    (claims : Claims) (id : ℕ) (reason : List ℕ) (s : Store)
    → IsCovered s
    → IsCovered (committed s (cancel claims id reason s))
unfolding committed cancel void_ticket
cancel-IsCovered claims id reason s h = elim (Option-cases (s.tickets id)) [
  | inl missing ↦ rw missing h
  | inr (t, found) ↦ rw found (
      guarded s (claims.loc == t.from) _ _ h (λ own. elim (Bool-cases (length reason == 0)) [
        | inl blank ↦ rw blank h
        | inr said ↦ rw said (
            guarded s (can_transition ticket_transitions t.st TktStatus.cancelled) _ _ h (λ live.
              put_back-IsCovered claims.sub t.ref_type t.req s _ h
                (void-IsCoveredBy id t s h found)))
      ]))
]

for_lines : (P : ℕ → Type 0) (lines : List TicketLine) → ((i : ℕ) → P i) → All (λ ln. P ln.it) lines
for_lines P [] h = tt
for_lines P (ln ∷ rest) h = (h ln.it, for_lines P rest h)

-- Where every open hold is covered, a handover is never turned away for want of stock: it is done
-- exactly where the ticket's own desk asks for it, the ticket is issued, fewer than five wrong
-- codes were typed on it, and the code typed is the ticket's own.
pub handover-never_short :
    (claims : Claims) (id : ℕ) (typed : List ℕ) (s : Store) (t : Ticket)
    → IsCovered s
    → s.tickets id ≡ some t
    → (is_done (handover claims id typed s) ≡ true) ↔ (
        (claims.loc ≡ t.from)
        × (t.st ≡ TktStatus.issued)
        × (t.otp_attempts < otp_attempts_max)
        × (typed ≡ t.otp))
handover-never_short claims id typed s t h found =
    let exact = handover_done_iff claims id typed s t found in
    (
      λ k. let (own, issued, few, code, enough) = exact.0 k in (own, issued, few, code),
      λ (own, issued, few, code).
          let after = collect-IsCoveredBy claims id t s h found issued in
          exact.1 (
            own,
            issued,
            few,
            code,
            for_lines
                (λ i.
                  pos 0
                  ≤ℤ or_zero (
                      (post_moves (out_moves claims id t.from t.lines) s.ledger).balances t.from i))
                t.lines
                (λ i.
                  let low = held_nonneg (release_for_ticket id s.rsv) t.from i after.holds in
                  let covered = after.covered t.from i in omega (arith, low, covered)),
          ),
    )
