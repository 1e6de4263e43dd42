-- ===== src/Workflow/Documents.antt =====
-- What the tables of packages/domain/src/transitions.ts promise of the documents that walk them, and
-- of a stock request, which also changes its status outside its table.
use rch.Prelude.{ℕ, ◌+◌, ◌*◌, ◌≤◌, ◌≡◌, ◌≢◌, Bool, true, false, List, arith, length}
use rch.Workflow.Table.{Reach, can_transition}
use rch.Workflow.Status.{
  ReqStatus, TktStatus, PrqStatus, PoStatus, PordStatus, AdjReqStatus, req_coded, tkt_coded,
  prq_coded, po_coded, pord_coded, adj_req_coded,
}
use rch.Workflow.Tables.{
  request_transitions, ticket_transitions, requisition_transitions, po_transitions,
  prod_order_transitions, adjustment_request_transitions,
}
use rch.Workflow.Requests.{RequestRun, RequestRun-rank, rank_top}
use rch.Workflow.Walks.{Reach_induction, IsWalk, IsWalk-length}

abbrev ticket_rank : TktStatus → ℕ
ticket_rank TktStatus.issued = 0
ticket_rank TktStatus.collected = 1
ticket_rank _ = 2

abbrev requisition_rank : PrqStatus → ℕ
requisition_rank PrqStatus.sent = 0
requisition_rank _ = 1

abbrev adjustment_rank : AdjReqStatus → ℕ
adjustment_rank AdjReqStatus.request_sent = 0
adjustment_rank _ = 1

-- A stock request changes its status at most five times, and at most two times more for each
-- ticket of it that is cancelled, by whatever way the program changes it. No ticket makes more than
-- two moves, and a requisition and an adjustment request are decided once.
pub walks_end :
    ((a b : ReqStatus) (n k : ℕ) → RequestRun a n k b → n ≤ 5 + 2 * k)
    × ((a : TktStatus) (bs : List TktStatus) → IsWalk ticket_transitions a bs → length bs ≤ 2)
    × ((a : PrqStatus) (bs : List PrqStatus) → IsWalk requisition_transitions a bs → length bs ≤ 1)
    × ((a : AdjReqStatus) (bs : List AdjReqStatus)
        → IsWalk adjustment_request_transitions a bs
        → length bs ≤ 1)
unfolding can_transition ticket_transitions requisition_transitions adjustment_request_transitions
walks_end = (
  λ a b n k r. omega (arith, RequestRun-rank r, rank_top b),
  λ a bs w. omega (
    arith,
    IsWalk-length ticket_transitions ticket_rank 2 (λ b c h. ground arith) a bs (ground arith) w,
  ),
  λ a bs w. omega (
    arith,
    IsWalk-length requisition_transitions requisition_rank 1 (λ b c h. ground arith) a bs
        (ground arith) w,
  ),
  λ a bs w. omega (
    arith,
    IsWalk-length adjustment_request_transitions adjustment_rank 1 (λ b c h. ground arith) a bs
        (ground arith) w,
  ),
)

not_received :
    (b c : ReqStatus)
    → b ≢ ReqStatus.received
    → can_transition request_transitions b c ≡ true
    → c ≢ ReqStatus.received
unfolding can_transition request_transitions
not_received b c e h = ground arith

-- No request that starts as a draft comes to `Received` by moves of the table.
pub request_never_received :
    {b : ReqStatus} → Reach request_transitions ReqStatus.draft b → b ≢ ReqStatus.received
request_never_received r =
    Reach_induction request_transitions (λ b. b ≢ ReqStatus.received) not_received r (cc)

-- An order that has had a receipt.
abbrev pub has_arrived : PoStatus → Bool
has_arrived PoStatus.partially_received = true
has_arrived PoStatus.received = true
has_arrived _ = false

stays_arrived :
    (b c : PoStatus)
    → has_arrived b ≡ true
    → can_transition po_transitions b c ≡ true
    → has_arrived c ≡ true
unfolding can_transition po_transitions
stays_arrived b c e h = ground arith

-- Once goods have arrived against a purchase order it is never cancelled and never goes back to
-- `Draft` or `Ordered`.
pub arrived_is_kept :
    {a b : PoStatus} → Reach po_transitions a b → has_arrived a ≡ true → has_arrived b ≡ true
arrived_is_kept r h = Reach_induction po_transitions (λ b. has_arrived b ≡ true) stays_arrived r h

abbrev pub is_sent : PordStatus → Bool
is_sent PordStatus.ready = true
is_sent PordStatus.dispatched = true
is_sent _ = false

stays_sent :
    (b c : PordStatus)
    → is_sent b ≡ true
    → can_transition prod_order_transitions b c ≡ true
    → is_sent c ≡ true
unfolding can_transition prod_order_transitions
stays_sent b c e h = ground arith

-- A kitchen order that is ready or gone is never declined and never back in the kitchen: a
-- cancelled dispatch takes it to `Ready` alone.
pub sent_is_kept :
    {a b : PordStatus} → Reach prod_order_transitions a b → is_sent a ≡ true → is_sent b ≡ true
sent_is_kept r h = Reach_induction prod_order_transitions (λ b. is_sent b ≡ true) stays_sent r h
