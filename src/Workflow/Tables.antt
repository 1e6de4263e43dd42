-- ===== src/Workflow/Tables.antt =====
-- The transition tables: packages/domain/src/transitions.ts, and SUPPORT_TRANSITIONS of support.ts.
use rch.Prelude.{[], ◌∷◌}
use rch.Workflow.Table.{TransitionTable}
use rch.Workflow.Status.{
  AdjReqStatus, PoStatus, PordStatus, PrqStatus, QrOrderStatus, RefundStatus, ReqStatus,
  ShopAskStatus, TicketStatus, TktStatus,
}

unfoldable pub request_transitions : TransitionTable ReqStatus
request_transitions ReqStatus.draft = ReqStatus.request_sent ∷ ReqStatus.cancelled ∷ []
request_transitions ReqStatus.request_sent =
    ReqStatus.manager_approved ∷ ReqStatus.partially_approved ∷ ReqStatus.rejected
    ∷ ReqStatus.cancelled ∷ []
request_transitions ReqStatus.manager_approved = ReqStatus.ticket_issued ∷ ReqStatus.cancelled ∷ []
request_transitions ReqStatus.partially_approved =
    ReqStatus.ticket_issued ∷ ReqStatus.cancelled ∷ []
request_transitions ReqStatus.ticket_issued = ReqStatus.collected ∷ []
request_transitions ReqStatus.collected = ReqStatus.closed ∷ []
request_transitions ReqStatus.received = ReqStatus.closed ∷ []
request_transitions ReqStatus.closed = []
request_transitions ReqStatus.rejected = []
request_transitions ReqStatus.cancelled = []

unfoldable pub ticket_transitions : TransitionTable TktStatus
ticket_transitions TktStatus.issued = TktStatus.collected ∷ TktStatus.cancelled ∷ []
ticket_transitions TktStatus.collected = TktStatus.received ∷ []
ticket_transitions TktStatus.received = []
ticket_transitions TktStatus.cancelled = []

unfoldable pub prod_order_transitions : TransitionTable PordStatus
prod_order_transitions PordStatus.new =
    PordStatus.accepted ∷ PordStatus.declined ∷ PordStatus.dispatched ∷ []
prod_order_transitions PordStatus.accepted = PordStatus.in_kitchen ∷ PordStatus.dispatched ∷ []
prod_order_transitions PordStatus.in_kitchen = PordStatus.ready ∷ PordStatus.dispatched ∷ []
prod_order_transitions PordStatus.ready = PordStatus.dispatched ∷ []
prod_order_transitions PordStatus.dispatched = PordStatus.ready ∷ []
prod_order_transitions PordStatus.declined = []

unfoldable pub shop_ask_transitions : TransitionTable ShopAskStatus
shop_ask_transitions ShopAskStatus.asked = ShopAskStatus.sent ∷ ShopAskStatus.declined ∷ []
shop_ask_transitions ShopAskStatus.sent = ShopAskStatus.asked ∷ []
shop_ask_transitions ShopAskStatus.declined = []

unfoldable pub requisition_transitions : TransitionTable PrqStatus
requisition_transitions PrqStatus.sent =
    PrqStatus.approved ∷ PrqStatus.partially_approved ∷ PrqStatus.declined ∷ []
requisition_transitions PrqStatus.approved = []
requisition_transitions PrqStatus.partially_approved = []
requisition_transitions PrqStatus.declined = []

unfoldable pub po_transitions : TransitionTable PoStatus
po_transitions PoStatus.draft = PoStatus.ordered ∷ PoStatus.cancelled ∷ []
po_transitions PoStatus.ordered =
    PoStatus.partially_received ∷ PoStatus.received ∷ PoStatus.cancelled ∷ []
po_transitions PoStatus.partially_received = PoStatus.partially_received ∷ PoStatus.received ∷ []
po_transitions PoStatus.received = []
po_transitions PoStatus.cancelled = []

unfoldable pub adjustment_request_transitions : TransitionTable AdjReqStatus
adjustment_request_transitions AdjReqStatus.request_sent =
    AdjReqStatus.approved ∷ AdjReqStatus.rejected ∷ AdjReqStatus.cancelled ∷ []
adjustment_request_transitions AdjReqStatus.approved = []
adjustment_request_transitions AdjReqStatus.rejected = []
adjustment_request_transitions AdjReqStatus.cancelled = []

unfoldable pub qr_order_transitions : TransitionTable QrOrderStatus
qr_order_transitions QrOrderStatus.awaiting_payment =
    QrOrderStatus.paid ∷ QrOrderStatus.refunded ∷ QrOrderStatus.expired ∷ []
qr_order_transitions QrOrderStatus.expired = QrOrderStatus.paid ∷ QrOrderStatus.refunded ∷ []
qr_order_transitions QrOrderStatus.paid = QrOrderStatus.preparing ∷ QrOrderStatus.voided ∷ []
qr_order_transitions QrOrderStatus.preparing =
    QrOrderStatus.ready ∷ QrOrderStatus.out_for_delivery ∷ QrOrderStatus.voided ∷ []
qr_order_transitions QrOrderStatus.ready = QrOrderStatus.collected ∷ QrOrderStatus.voided ∷ []
qr_order_transitions QrOrderStatus.out_for_delivery =
    QrOrderStatus.delivered ∷ QrOrderStatus.voided ∷ []
qr_order_transitions QrOrderStatus.collected = QrOrderStatus.voided ∷ []
qr_order_transitions QrOrderStatus.delivered = QrOrderStatus.voided ∷ []
qr_order_transitions QrOrderStatus.refunded = []
qr_order_transitions QrOrderStatus.voided = []

unfoldable pub refund_transitions : TransitionTable RefundStatus
refund_transitions RefundStatus.pending = RefundStatus.sent ∷ RefundStatus.failed ∷ []
refund_transitions RefundStatus.sent = RefundStatus.processed ∷ RefundStatus.failed ∷ []
refund_transitions RefundStatus.failed = RefundStatus.pending ∷ []
refund_transitions RefundStatus.processed = []

unfoldable pub support_transitions : TransitionTable TicketStatus
support_transitions TicketStatus.opened =
    TicketStatus.with_support ∷ TicketStatus.waiting_on_you ∷ TicketStatus.resolved
    ∷ TicketStatus.closed ∷ []
support_transitions TicketStatus.with_support =
    TicketStatus.waiting_on_you ∷ TicketStatus.resolved ∷ TicketStatus.closed ∷ []
support_transitions TicketStatus.waiting_on_you =
    TicketStatus.with_support ∷ TicketStatus.resolved ∷ TicketStatus.closed ∷ []
support_transitions TicketStatus.resolved = TicketStatus.with_support ∷ TicketStatus.closed ∷ []
support_transitions TicketStatus.closed = []
