-- ===== src/Workflow/Holds.antt =====
-- Which statuses hold an outlet open: `HOLDS_OUTLET` and `holding` of
-- packages/domain/src/locations.ts.
use rch.Prelude.{◌≡◌, Bool, true, false, List, arith, filter}
use rch.Workflow.Table.{Reach, can_transition}
use rch.Workflow.Status.{
  ReqStatus, TktStatus, PordStatus, ShopAskStatus, ProductReqStatus, QrOrderStatus, req_coded,
  tkt_coded, pord_coded, qr_order_coded, shop_ask_coded,
}
use rch.Workflow.Tables.{
  request_transitions, ticket_transitions, prod_order_transitions, qr_order_transitions,
  shop_ask_transitions,
}
use rch.Workflow.Walks.{Reach_induction}

unfoldable pub holds_request : ReqStatus → Bool
holds_request ReqStatus.draft = true
holds_request ReqStatus.request_sent = true
holds_request ReqStatus.manager_approved = true
holds_request ReqStatus.partially_approved = true
holds_request ReqStatus.ticket_issued = true
holds_request ReqStatus.collected = true
holds_request ReqStatus.received = true
holds_request ReqStatus.closed = false
holds_request ReqStatus.rejected = false
holds_request ReqStatus.cancelled = false

unfoldable pub holds_ticket : TktStatus → Bool
holds_ticket TktStatus.issued = true
holds_ticket TktStatus.collected = true
holds_ticket TktStatus.received = false
holds_ticket TktStatus.cancelled = false

unfoldable pub holds_prod_order : PordStatus → Bool
holds_prod_order PordStatus.new = true
holds_prod_order PordStatus.accepted = true
holds_prod_order PordStatus.in_kitchen = true
holds_prod_order PordStatus.ready = true
holds_prod_order PordStatus.dispatched = false
holds_prod_order PordStatus.declined = false

unfoldable pub holds_shop_ask : ShopAskStatus → Bool
holds_shop_ask ShopAskStatus.asked = true
holds_shop_ask ShopAskStatus.sent = false
holds_shop_ask ShopAskStatus.declined = false

unfoldable pub holds_product_req : ProductReqStatus → Bool
holds_product_req ProductReqStatus.requested = true
holds_product_req ProductReqStatus.created = false
holds_product_req ProductReqStatus.declined = false

unfoldable pub holds_qr_order : QrOrderStatus → Bool
holds_qr_order QrOrderStatus.awaiting_payment = false
holds_qr_order QrOrderStatus.paid = true
holds_qr_order QrOrderStatus.preparing = true
holds_qr_order QrOrderStatus.ready = true
holds_qr_order QrOrderStatus.out_for_delivery = true
holds_qr_order QrOrderStatus.collected = false
holds_qr_order QrOrderStatus.delivered = false
holds_qr_order QrOrderStatus.refunded = false
holds_qr_order QrOrderStatus.expired = false
holds_qr_order QrOrderStatus.voided = false

-- The statuses that a record marks, in the record's own order.
unfoldable pub holding : {S : Type 0} → List S → (S → Bool) → List S
holding keys t = filter t keys

free_request :
    (b c : ReqStatus)
    → holds_request b ≡ false
    → can_transition request_transitions b c ≡ true
    → holds_request c ≡ false
unfolding can_transition request_transitions holds_request
free_request b c e h = ground arith

free_ticket :
    (b c : TktStatus)
    → holds_ticket b ≡ false
    → can_transition ticket_transitions b c ≡ true
    → holds_ticket c ≡ false
unfolding can_transition ticket_transitions holds_ticket
free_ticket b c e h = ground arith

-- A stock request or a ticket that no longer holds an outlet open never comes to hold it again.
pub holds_never_again :
    ((a b : ReqStatus)
      → Reach request_transitions a b
      → holds_request a ≡ false
      → holds_request b ≡ false)
    × ((a b : TktStatus)
        → Reach ticket_transitions a b
        → holds_ticket a ≡ false
        → holds_ticket b ≡ false)
holds_never_again = (
  λ a b. Reach_induction request_transitions (λ b. holds_request b ≡ false) free_request,
  λ a b. Reach_induction ticket_transitions (λ b. holds_ticket b ≡ false) free_ticket,
)

-- A move by which a kitchen order or a shop ask comes to hold an outlet again is the undo of a
-- dispatch or of a grant, and a QR order comes to hold one only by being paid.
pub holds_again :
    ((b c : PordStatus)
      → holds_prod_order b ≡ false
      → can_transition prod_order_transitions b c ≡ true
      → holds_prod_order c ≡ true
      → (b ≡ PordStatus.dispatched) × (c ≡ PordStatus.ready))
    × ((b c : ShopAskStatus)
        → holds_shop_ask b ≡ false
        → can_transition shop_ask_transitions b c ≡ true
        → holds_shop_ask c ≡ true
        → (b ≡ ShopAskStatus.sent) × (c ≡ ShopAskStatus.asked))
    × ((b c : QrOrderStatus)
        → holds_qr_order b ≡ false
        → can_transition qr_order_transitions b c ≡ true
        → holds_qr_order c ≡ true
        → c ≡ QrOrderStatus.paid)
unfolding can_transition prod_order_transitions shop_ask_transitions qr_order_transitions
    holds_prod_order holds_shop_ask holds_qr_order
holds_again = (ground arith, ground arith, ground arith)
