-- ===== src/Tickets/Receiving.antt =====
-- What a receipt of a ticket does, whether it goes through or not: `receive` of
-- apps/api/src/modules/tickets/service.ts.
use rch.Prelude.{
  ℕ, ◌≡◌, ◌↔◌, refl, sym, ap, ◌∙◌, inl, inr, Bool, true, false, Option, none, some, List, ◌==◌,
  ==_iff, if◌then◌else◌, Bool-cases, ℤ, pos, ◌+ℤ◌, ◌-ℤ◌, int_laws,
}
use mathlib.Core.Bool.{false≢true}
use rch.Workflow.Status.{TktStatus, ReqStatus, tkt_coded, req_coded}
use rch.Workflow.Table.{can_transition}
use rch.Workflow.Tables.{ticket_transitions, request_transitions}
use rch.Catalog.{or_zero}
use rch.Ledger.{Move, with_use_on_arrival, real, stored, post_moves}
use rch.Ledger.Cache.{post_moves_on_hand}
use rch.Tickets.Rows.{linked, logged, with_ticket, with_ledger}
use rch.Tickets.{
  request_is, ticket_received, Ticket, StockRequest, HistoryEvent, Store, committed, with_status,
}
use rch.Tickets.Service.{Claims, in_moves, move_request, receive}
use rch.Tickets.Movement.{wanted}
use rch.Tickets.Code.{is_done}
use rch.Tickets.Cover.{IsCovered}
use rch.Tickets.Promise.{receive-IsCovered}
use rch.Tickets.Landing.{
  uses, landed, consumed_at_once, used_up, used_up-append, used_up-real, moved-batch, used_up-batch,
}

-- The request behind a ticket is no part of the stock.
abbrev pub IsSameStock : Store → Store → ℕ → Type 0
IsSameStock a b id = (a.ledger ≡ b.ledger) × (a.tickets id ≡ b.tickets id)

pub move_request-IsSameStock :
    (st : ReqStatus) (event : HistoryEvent) (by : ℕ) (r : Option (ℕ × StockRequest)) (s : Store)
    (id : ℕ)
    → IsSameStock (move_request st event by r s) s id
move_request-IsSameStock st event by none s id = (refl, refl)
move_request-IsSameStock st event by (some (doc, r)) s id =
    elim (Bool-cases (can_transition request_transitions r.status st)) [
      | inl e ↦ rw e (refl, refl)
      | inr e ↦ rw e (refl, refl)
    ]

collected_iff :
    (st : TktStatus)
    → (can_transition ticket_transitions st TktStatus.received ≡ true) ↔ (st ≡ TktStatus.collected)
unfolding can_transition ticket_transitions
collected_iff TktStatus.issued = (
  λ h. absurd (false≢true h),
  λ h. ap (λ st. can_transition ticket_transitions st TktStatus.received) h,
)
collected_iff TktStatus.collected = (λ h. refl, λ h. refl)
collected_iff TktStatus.received = (
  λ h. absurd (false≢true h),
  λ h. ap (λ st. can_transition ticket_transitions st TktStatus.received) h,
)
collected_iff TktStatus.cancelled = (
  λ h. absurd (false≢true h),
  λ h. ap (λ st. can_transition ticket_transitions st TktStatus.received) h,
)

minus_chosen :
    (b u : Bool) (x w : ℤ)
    → x +ℤ (if b then (if u then pos 0 -ℤ w else pos 0) else pos 0)
      ≡ x -ℤ (if b then (if u then w else pos 0) else pos 0)
minus_chosen true true x w = omega int_laws
minus_chosen true false x w = omega int_laws
minus_chosen false u x w = omega int_laws

module _ (claims : Claims) (id : ℕ) (s : Store) (t : Ticket) (found : s.tickets id ≡ some t) where
  abbrev arriving : List Move
  arriving = with_use_on_arrival s.master.items (in_moves claims id t.to t.lines)

  abbrev after : Store
  after = committed s (receive claims id s)

  abbrev goes_through : Bool
  goes_through = is_done (receive claims id s)

  abbrev IsReceived : Type 0
  IsReceived =
      ((goes_through ≡ true) ↔ ((claims.loc ≡ t.to) × (t.st ≡ TktStatus.collected)))
      × (after.ledger ≡ (if goes_through then post_moves arriving s.ledger else s.ledger))
      × (after.tickets id ≡ some (if goes_through then with_status TktStatus.received t else t))

  cell :
      (h : IsCovered s) (l i : ℕ) (b : Bool)
      → (or_zero ((if b then post_moves arriving s.ledger else s.ledger).balances l i)
          ≡ or_zero (s.ledger.balances l i) +ℤ (if b then landed s t l i else pos 0))
        × (used_up l i (if b then post_moves arriving s.ledger else s.ledger).moves
            ≡ used_up l i s.ledger.moves -ℤ (if b then consumed_at_once s t l i else pos 0))
  unfolding post_moves
  cell h l i false = (omega int_laws, omega int_laws)
  cell h l i true =
      let mine = h.lines id t found in
      (
        (post_moves_on_hand arriving s.ledger l i h.cached).0
            ∙ ap (λ q. or_zero (s.ledger.balances l i) +ℤ q)
                (moved-batch claims id s.master.items t.to l i t.lines mine),
        used_up-append l i s.ledger.moves (stored (real arriving))
            ∙ ap (λ q. used_up l i s.ledger.moves +ℤ q)
                (used_up-real l i arriving
                  ∙ used_up-batch claims id s.master.items t.to l i t.lines mine)
            ∙ minus_chosen (t.to == l) (uses s.master.items t.to i) (used_up l i s.ledger.moves)
                (wanted i t.lines),
      )

  pub receive-IsReceived : IsReceived
  unfolding committed receive
  receive-IsReceived = rw found (elim (Bool-cases (claims.loc == t.to)) [
    | inr foreign ↦ rw foreign (
      (
        λ h. absurd (false≢true h),
        λ (own, st). absurd (false≢true (sym foreign ∙ (==_iff claims.loc t.to).1 own)),
      ),
      refl,
      found,
    )
    | inl own ↦ elim (Bool-cases (can_transition ticket_transitions t.st TktStatus.received)) [
      | inr stays ↦
          rw (own, stays)
            (
              (
                λ h. absurd (false≢true h),
                λ (loc, st). absurd (false≢true (sym stays ∙ (collected_iff t.st).1 st)),
              ),
              refl,
              found,
            )
      | inl goes ↦
          let same =
            move_request-IsSameStock ReqStatus.closed (request_is ReqStatus.received) claims.sub
              (linked s.requests t.req)
              (logged id ticket_received claims.sub (
                with_ticket id (with_status TktStatus.received t)
                  (with_ledger (post_moves arriving s.ledger) s)))
              id in
          rw (own, goes)
            (
              (λ h. ((==_iff claims.loc t.to).0 own, (collected_iff t.st).0 goes), λ h. refl),
              same.0,
              same.1 ∙ rw ((==_iff id id).1 refl) refl,
            )
    ]
  ])

-- A receipt goes through exactly at the location the ticket is for, on a ticket that is collected,
-- and then the ticket is received. On a store whose open holds are covered it leaves them covered.
-- Then the shelf of each cell gains what `landed` says, which is the ticket's lines for an item
-- that stays and nothing for one that is used on arrival there, and what `production_consume`
-- moves take from a cell grows by the lines of an item that is used on arrival. A receipt that
-- does not go through changes neither.
pub receive-landed :
    (claims : Claims) (id : ℕ) (s : Store) (t : Ticket)
    → IsCovered s
    → s.tickets id ≡ some t
    → IsCovered (committed s (receive claims id s))
      × ((is_done (receive claims id s) ≡ true)
          ↔ ((claims.loc ≡ t.to) × (t.st ≡ TktStatus.collected)))
      × ((committed s (receive claims id s)).tickets id
          ≡ some (if is_done (receive claims id s) then with_status TktStatus.received t else t))
      × ((l i : ℕ)
          → (or_zero ((committed s (receive claims id s)).ledger.balances l i)
              ≡ or_zero (s.ledger.balances l i)
                +ℤ (if is_done (receive claims id s) then landed s t l i else pos 0))
            × (used_up l i (committed s (receive claims id s)).ledger.moves
                ≡ used_up l i s.ledger.moves
                  -ℤ (if is_done (receive claims id s) then consumed_at_once s t l i else pos 0)))
receive-landed claims id s t h found =
    let (exact, ledger, ticket) = receive-IsReceived claims id s t found in
    (
      receive-IsCovered claims id s h,
      exact,
      ticket,
      λ l i. rw ledger (cell claims id s t found h l i (is_done (receive claims id s))),
    )
