-- ===== src/Till/Collecting.antt =====
-- The numbers of the till beside the tickets: a handover of apps/api/src/modules/tickets/service.ts
-- writes to the ledger that the till shares, under its own kind of document.
use rch.Prelude.{
  ℕ, ◌<◌, ◌≡◌, inl, inr, Bool, true, false, not, Option-cases, List, [], ◌∷◌, ◌==◌, if◌then◌else◌,
  Bool-cases, All, All-append, arith, pos, ◌-ℤ◌, ◌==ℤ◌, ltb, round3,
}
use rch.Workflow.Status.{TktStatus, ReqStatus, tkt_coded}
use rch.Workflow.Table.{can_transition}
use rch.Workflow.Tables.{ticket_transitions}
use rch.Ledger.{Ledger, bill_ref, real, stored, post_moves}
use rch.Ledger.Cache.{IsCached, post_moves-IsCached}
use rch.Tickets.{
  TicketLine, Store, Outcome, TicketRefusal, refused, committed, ticket_handed_over, request_is,
  with_status,
}
use rch.Tickets.Rows.{linked, logged, released, with_ticket}
use rch.Tickets.Service.{
  Claims, otp_matches, otp_attempts_max, none_below, taken_out, out_moves, handover,
}
use rch.Tickets.Receiving.{move_request-IsSameStock}
use rch.Till.{Till}
use rch.Till.Numbers.{IsNumbered}

module _ (P : Ledger → Type 0) where
  guarded_ledger :
      (s : Store) (b : Bool) (r : TicketRefusal) (o : Outcome)
      → P s.ledger
      → P (committed s o).ledger
      → P (committed s (if not b then refused r else o)).ledger
  unfolding committed
  guarded_ledger s true r o h k = k
  guarded_ledger s false r o h k = h

  -- After a handover the ledger is as it was, or has the moves of the ticket's lines.
  handover_ledger :
      (claims : Claims) (id : ℕ) (typed : List ℕ) (s : Store)
      → P s.ledger
      → ((from : ℕ) (lines : List TicketLine)
          → P (post_moves (out_moves claims id from lines) s.ledger))
      → P (committed s (handover claims id typed s)).ledger
  unfolding committed handover
  handover_ledger claims id typed s h k = elim (Option-cases (s.tickets id)) [
    | inl missing ↦ rw missing h
    | inr (t, found) ↦ rw found (
        guarded_ledger s (claims.loc == t.from) _ _ h (
          guarded_ledger s (can_transition ticket_transitions t.st TktStatus.collected) _ _ h (
            guarded_ledger s (ltb t.otp_attempts otp_attempts_max) _ _ h
              (elim (Bool-cases (otp_matches typed t.otp)) [
                | inr wrong ↦ rw wrong h
                | inl right ↦ rw right (
                    guarded_ledger s (none_below (taken_out claims id t s).ledger t.from t.lines) _
                      _ h
                      (rw
                        (move_request-IsSameStock ReqStatus.collected
                          (request_is ReqStatus.collected) claims.sub
                          (linked (taken_out claims id t s).requests t.req)
                          (logged id ticket_handed_over claims.sub (
                            with_ticket id (with_status TktStatus.collected t)
                              (released id (taken_out claims id t s))))
                          id).0
                        (k t.from t.lines)))
              ]))))
  ]

not_bills :
    (claims : Claims) (id from num : ℕ) (lines : List TicketLine)
    → All
        (λ m. m.ref_type ≡ bill_ref → m.ref_id < num)
        (stored (real (out_moves claims id from lines)))
unfolding real
not_bills claims id from num [] = tt
not_bills claims id from num (ln ∷ rest) = elim (Bool-cases (round3 (pos 0 -ℤ ln.qty) ==ℤ pos 0)) [
  | inl crumb ↦ rw crumb (not_bills claims id from num rest)
  | inr left ↦ rw left (λ e. omega (arith, e), not_bills claims id from num rest)
]

-- A handover, whatever becomes of it, keeps the numbers of the till's tables new, the number of its
-- ticket being no number of a bill.
pub handover-IsNumbered :
    (claims : Claims) (id : ℕ) (typed : List ℕ) (s : Till)
    → IsNumbered s
    → IsNumbered (record s { store = committed s.store (handover claims id typed s.store) })
unfolding post_moves
handover-IsNumbered claims id typed s h = record {
  cached = handover_ledger IsCached claims id typed s.store h.cached (λ from lines.
      (post_moves-IsCached (out_moves claims id from lines) s.store.ledger h.cached).0);
  bills = h.bills;
  moves =
      handover_ledger (λ l. All (λ m. m.ref_type ≡ bill_ref → m.ref_id < s.next_bill) l.moves)
        claims id typed s.store h.moves
        (λ from lines.
          All-append (λ m. m.ref_type ≡ bill_ref → m.ref_id < s.next_bill) s.store.ledger.moves _
            h.moves (not_bills claims id from s.next_bill lines));
  lines = h.lines;
  keyed = h.keyed;
  ids = h.ids;
}
