-- ===== src/Tickets/Withdrawing.antt =====
-- What becomes of the stock request behind a ticket that is cancelled: `cancel` of
-- apps/api/src/modules/tickets/service.ts, for the tickets of `issue` and of `redirect` of
-- apps/api/src/modules/requests/service.ts.
use rch.Prelude.{
  ℕ, ◌≡◌, ◌↔◌, refl, sym, ap, ◌∙◌, inl, inr, Bool, true, false, ◌&&◌, ◌||◌, not, none, some, List,
  ◌==◌, ==_iff, if◌then◌else◌, Bool-cases, length,
}
use mathlib.Core.Bool.{false≢true}
use rch.Workflow.Status.{TktStatus, ReqStatus, tkt_coded, req_coded}
use rch.Workflow.Table.{can_transition}
use rch.Workflow.Tables.{ticket_transitions}
use rch.Purchasing.Approval.{approved_status}
use rch.Tickets.{
  TicketRefType, Ticket, StockRequest, Store, committed, request, shop_transfer, document,
  void_ticket,
}
use rch.Tickets.Service.{Claims, cancel}
use rch.Tickets.Code.{is_done}

-- The type of the ticket of a request: `redirect` writes it as a transfer between shops.
abbrev pub type_of : Bool → TicketRefType
type_of redirected = if redirected then shop_transfer else request

-- The request as its approval left it.
abbrev pub unissued : StockRequest → StockRequest
unissued r = record { status = approved_status r.lines; ticket = none; lines = r.lines }

may_cancel_iff :
    (st : TktStatus)
    → (can_transition ticket_transitions st TktStatus.cancelled ≡ true) ↔ (st ≡ TktStatus.issued)
unfolding can_transition ticket_transitions
may_cancel_iff TktStatus.issued = (λ h. refl, λ h. refl)
may_cancel_iff TktStatus.collected = (
  λ h. absurd (false≢true h),
  λ h. ap (λ st. can_transition ticket_transitions st TktStatus.cancelled) h,
)
may_cancel_iff TktStatus.received = (
  λ h. absurd (false≢true h),
  λ h. ap (λ st. can_transition ticket_transitions st TktStatus.cancelled) h,
)
may_cancel_iff TktStatus.cancelled = (
  λ h. absurd (false≢true h),
  λ h. ap (λ st. can_transition ticket_transitions st TktStatus.cancelled) h,
)

abbrev pub is_out : StockRequest → Bool
is_out r = req_coded.code r.status == req_coded.code ReqStatus.ticket_issued

-- The ticket of a request is cancelled exactly at the location that issued it, with a reason, as
-- long as it is issued and, unless it comes of a redirection, the request stands at
-- `Ticket issued`. Then a request that the store issued for is back to what was approved and
-- without a ticket; a request that was redirected stays as it was, and so does every request where
-- the cancellation is refused.
pub cancel_request_lem :
    (claims : Claims) (id : ℕ) (reason : List ℕ) (s : Store) (t : Ticket) (redirected : Bool)
    (doc : ℕ) (r : StockRequest)
    → s.tickets id ≡ some t
    → t.ref_type ≡ type_of redirected
    → t.req ≡ document doc
    → s.requests doc ≡ some r
    → ((is_done (cancel claims id reason s) ≡ true) ↔ (
        (claims.loc ≡ t.from)
        × ((length reason == 0) ≡ false)
        × (t.st ≡ TktStatus.issued)
        × ((redirected || is_out r) ≡ true)))
      × ((committed s (cancel claims id reason s)).requests doc
          ≡ some (if is_done (cancel claims id reason s) && not redirected then unissued r else r))
unfolding committed cancel void_ticket
cancel_request_lem claims id reason s t redirected doc r found type req row =
    rw found (elim (Bool-cases (claims.loc == t.from)) [
      | inr foreign ↦ rw foreign (
        (
          λ h. absurd (false≢true h),
          λ (loc, said, st, out).
              absurd (false≢true (sym foreign ∙ (==_iff claims.loc t.from).1 loc)),
        ),
        row,
      )
      | inl own ↦ elim (Bool-cases (length reason == 0)) [
        | inl blank ↦
            rw (own, blank)
              (
                (
                  λ h. absurd (false≢true h),
                  λ (loc, said, st, out). absurd (false≢true (sym said)),
                ),
                row,
              )
        | inr said ↦
            elim (Bool-cases (can_transition ticket_transitions t.st TktStatus.cancelled)) [
              | inr gone ↦
                  rw (own, said, gone)
                    (
                      (
                        λ h. absurd (false≢true h),
                        λ (loc, said_so, st, out).
                            absurd (false≢true (sym gone ∙ (may_cancel_iff t.st).1 st)),
                      ),
                      row,
                    )
              | inl live ↦
                  let here = (==_iff claims.loc t.from).0 own in
                  let issued = (may_cancel_iff t.st).0 live in
                  rw (own, said, live, type)
                    (elim (Bool-cases redirected) [
                      | inl away ↦ rw away ((λ h. (here, refl, issued, refl), λ h. refl), row)
                      | inr store ↦
                          rw (store, req, row)
                            (elim (Bool-cases (is_out r)) [
                              | inr moved ↦ rw moved (
                                (λ h. absurd (false≢true h), λ (a, b, c, d). absurd (false≢true d)),
                                row,
                              )
                              | inl out ↦
                                  rw (out, (==_iff doc doc).1 refl)
                                    ((λ h. (here, refl, issued, refl), λ h. refl), refl)
                            ])
                    ])
            ]
      ]
    ])
