-- ===== src/Workflow/Status.antt =====
-- The statuses of the documents: packages/contract/src/schemas/documents.ts and qr.ts.
use rch.Prelude.{ℕ, ◌≡◌, arith}
use rch.Workflow.Table.{Coded}

pub data ReqStatus : Type 0 where
  draft request_sent manager_approved partially_approved ticket_issued collected received closed
        rejected cancelled :
      ReqStatus

abbrev pub req_code : ReqStatus → ℕ
req_code ReqStatus.draft = 0
req_code ReqStatus.request_sent = 1
req_code ReqStatus.manager_approved = 2
req_code ReqStatus.partially_approved = 3
req_code ReqStatus.ticket_issued = 4
req_code ReqStatus.collected = 5
req_code ReqStatus.received = 6
req_code ReqStatus.closed = 7
req_code ReqStatus.rejected = 8
req_code ReqStatus.cancelled = 9

pub req_code_inj : (a b : ReqStatus) → req_code a ≡ req_code b → a ≡ b
req_code_inj a b h = ground arith

instance abbrev pub req_coded : Coded ReqStatus
req_coded = record { code = req_code; code_inj = req_code_inj }

pub data TktStatus : Type 0 where
  issued collected received cancelled : TktStatus

abbrev pub tkt_code : TktStatus → ℕ
tkt_code TktStatus.issued = 0
tkt_code TktStatus.collected = 1
tkt_code TktStatus.received = 2
tkt_code TktStatus.cancelled = 3

pub tkt_code_inj : (a b : TktStatus) → tkt_code a ≡ tkt_code b → a ≡ b
tkt_code_inj a b h = ground arith

instance abbrev pub tkt_coded : Coded TktStatus
tkt_coded = record { code = tkt_code; code_inj = tkt_code_inj }

pub data PrqStatus : Type 0 where
  sent approved partially_approved declined : PrqStatus

abbrev pub prq_code : PrqStatus → ℕ
prq_code PrqStatus.sent = 0
prq_code PrqStatus.approved = 1
prq_code PrqStatus.partially_approved = 2
prq_code PrqStatus.declined = 3

pub prq_code_inj : (a b : PrqStatus) → prq_code a ≡ prq_code b → a ≡ b
prq_code_inj a b h = ground arith

instance abbrev pub prq_coded : Coded PrqStatus
prq_coded = record { code = prq_code; code_inj = prq_code_inj }

pub data PordStatus : Type 0 where
  new accepted in_kitchen ready dispatched declined : PordStatus

abbrev pub pord_code : PordStatus → ℕ
pord_code PordStatus.new = 0
pord_code PordStatus.accepted = 1
pord_code PordStatus.in_kitchen = 2
pord_code PordStatus.ready = 3
pord_code PordStatus.dispatched = 4
pord_code PordStatus.declined = 5

pub pord_code_inj : (a b : PordStatus) → pord_code a ≡ pord_code b → a ≡ b
pord_code_inj a b h = ground arith

instance abbrev pub pord_coded : Coded PordStatus
pord_coded = record { code = pord_code; code_inj = pord_code_inj }

pub data PoStatus : Type 0 where
  draft ordered partially_received received cancelled : PoStatus

abbrev pub po_code : PoStatus → ℕ
po_code PoStatus.draft = 0
po_code PoStatus.ordered = 1
po_code PoStatus.partially_received = 2
po_code PoStatus.received = 3
po_code PoStatus.cancelled = 4

pub po_code_inj : (a b : PoStatus) → po_code a ≡ po_code b → a ≡ b
po_code_inj a b h = ground arith

instance abbrev pub po_coded : Coded PoStatus
po_coded = record { code = po_code; code_inj = po_code_inj }

pub data TicketStatus : Type 0 where
  opened with_support waiting_on_you resolved closed : TicketStatus

abbrev pub ticket_code : TicketStatus → ℕ
ticket_code TicketStatus.opened = 0
ticket_code TicketStatus.with_support = 1
ticket_code TicketStatus.waiting_on_you = 2
ticket_code TicketStatus.resolved = 3
ticket_code TicketStatus.closed = 4

pub ticket_code_inj : (a b : TicketStatus) → ticket_code a ≡ ticket_code b → a ≡ b
ticket_code_inj a b h = ground arith

instance abbrev pub ticket_coded : Coded TicketStatus
ticket_coded = record { code = ticket_code; code_inj = ticket_code_inj }

pub data ProductReqStatus : Type 0 where
  requested created declined : ProductReqStatus

abbrev pub product_req_code : ProductReqStatus → ℕ
product_req_code ProductReqStatus.requested = 0
product_req_code ProductReqStatus.created = 1
product_req_code ProductReqStatus.declined = 2

pub product_req_code_inj :
    (a b : ProductReqStatus) → product_req_code a ≡ product_req_code b → a ≡ b
product_req_code_inj a b h = ground arith

instance abbrev pub product_req_coded : Coded ProductReqStatus
product_req_coded = record { code = product_req_code; code_inj = product_req_code_inj }

pub data ShopAskStatus : Type 0 where
  asked sent declined : ShopAskStatus

abbrev pub shop_ask_code : ShopAskStatus → ℕ
shop_ask_code ShopAskStatus.asked = 0
shop_ask_code ShopAskStatus.sent = 1
shop_ask_code ShopAskStatus.declined = 2

pub shop_ask_code_inj : (a b : ShopAskStatus) → shop_ask_code a ≡ shop_ask_code b → a ≡ b
shop_ask_code_inj a b h = ground arith

instance abbrev pub shop_ask_coded : Coded ShopAskStatus
shop_ask_coded = record { code = shop_ask_code; code_inj = shop_ask_code_inj }

pub data AdjReqStatus : Type 0 where
  request_sent approved rejected cancelled : AdjReqStatus

abbrev pub adj_req_code : AdjReqStatus → ℕ
adj_req_code AdjReqStatus.request_sent = 0
adj_req_code AdjReqStatus.approved = 1
adj_req_code AdjReqStatus.rejected = 2
adj_req_code AdjReqStatus.cancelled = 3

pub adj_req_code_inj : (a b : AdjReqStatus) → adj_req_code a ≡ adj_req_code b → a ≡ b
adj_req_code_inj a b h = ground arith

instance abbrev pub adj_req_coded : Coded AdjReqStatus
adj_req_coded = record { code = adj_req_code; code_inj = adj_req_code_inj }

pub data QrOrderStatus : Type 0 where
  awaiting_payment expired paid preparing ready out_for_delivery collected delivered refunded
        voided :
      QrOrderStatus

abbrev pub qr_order_code : QrOrderStatus → ℕ
qr_order_code QrOrderStatus.awaiting_payment = 0
qr_order_code QrOrderStatus.expired = 1
qr_order_code QrOrderStatus.paid = 2
qr_order_code QrOrderStatus.preparing = 3
qr_order_code QrOrderStatus.ready = 4
qr_order_code QrOrderStatus.out_for_delivery = 5
qr_order_code QrOrderStatus.collected = 6
qr_order_code QrOrderStatus.delivered = 7
qr_order_code QrOrderStatus.refunded = 8
qr_order_code QrOrderStatus.voided = 9

pub qr_order_code_inj : (a b : QrOrderStatus) → qr_order_code a ≡ qr_order_code b → a ≡ b
qr_order_code_inj a b h = ground arith

instance abbrev pub qr_order_coded : Coded QrOrderStatus
qr_order_coded = record { code = qr_order_code; code_inj = qr_order_code_inj }

pub data RefundStatus : Type 0 where
  pending sent processed failed : RefundStatus

abbrev pub refund_code : RefundStatus → ℕ
refund_code RefundStatus.pending = 0
refund_code RefundStatus.sent = 1
refund_code RefundStatus.processed = 2
refund_code RefundStatus.failed = 3

pub refund_code_inj : (a b : RefundStatus) → refund_code a ≡ refund_code b → a ≡ b
refund_code_inj a b h = ground arith

instance abbrev pub refund_coded : Coded RefundStatus
refund_coded = record { code = refund_code; code_inj = refund_code_inj }
