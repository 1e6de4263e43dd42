-- ===== src/Tickets/Rows.antt =====
-- The rows that a transaction on tickets writes, a table at a time: apps/api/src/modules/tickets/repo.ts.
use rch.Prelude.{ℕ, Option, none, some, [], ◌∷◌, ◌++◌}
use rch.Workflow.Status.{PordStatus}
use rch.Ledger.{Ledger}
use rch.Reservations.{release_for_ticket}
use rch.Tickets.{
  RefId, Ticket, StockRequest, ShopAsk, HistoryEvent, Store, put, document, shop_transfer_label,
  direct_issue_label,
}

-- The tables of the store, changed one at a time.
abbrev pub with_ticket : ℕ → Ticket → Store → Store
with_ticket id t s = record {
  master = s.master;
  ledger = s.ledger;
  rsv = s.rsv;
  tickets = put id t s.tickets;
  requests = s.requests;
  prod_orders = s.prod_orders;
  shop_asks = s.shop_asks;
  history = s.history;
  next_ticket = s.next_ticket;
}

abbrev pub with_ledger : Ledger → Store → Store
with_ledger l s = record {
  master = s.master;
  ledger = l;
  rsv = s.rsv;
  tickets = s.tickets;
  requests = s.requests;
  prod_orders = s.prod_orders;
  shop_asks = s.shop_asks;
  history = s.history;
  next_ticket = s.next_ticket;
}

abbrev pub released : ℕ → Store → Store
released id s = record {
  master = s.master;
  ledger = s.ledger;
  rsv = release_for_ticket id s.rsv;
  tickets = s.tickets;
  requests = s.requests;
  prod_orders = s.prod_orders;
  shop_asks = s.shop_asks;
  history = s.history;
  next_ticket = s.next_ticket;
}

-- A document moved on, with the row on its trail.
abbrev pub logged : ℕ → HistoryEvent → ℕ → Store → Store
logged doc event by s = record {
  master = s.master;
  ledger = s.ledger;
  rsv = s.rsv;
  tickets = s.tickets;
  requests = s.requests;
  prod_orders = s.prod_orders;
  shop_asks = s.shop_asks;
  history = s.history ++ record { doc = doc; event = event; by = by } ∷ [];
  next_ticket = s.next_ticket;
}

abbrev pub with_request : ℕ → StockRequest → Store → Store
with_request doc r s = record {
  master = s.master;
  ledger = s.ledger;
  rsv = s.rsv;
  tickets = s.tickets;
  requests = put doc r s.requests;
  prod_orders = s.prod_orders;
  shop_asks = s.shop_asks;
  history = s.history;
  next_ticket = s.next_ticket;
}

abbrev pub with_prod_order : ℕ → PordStatus → Store → Store
with_prod_order doc st s = record {
  master = s.master;
  ledger = s.ledger;
  rsv = s.rsv;
  tickets = s.tickets;
  requests = s.requests;
  prod_orders = put doc st s.prod_orders;
  shop_asks = s.shop_asks;
  history = s.history;
  next_ticket = s.next_ticket;
}

abbrev pub with_shop_ask : ℕ → ShopAsk → Store → Store
with_shop_ask doc a s = record {
  master = s.master;
  ledger = s.ledger;
  rsv = s.rsv;
  tickets = s.tickets;
  requests = s.requests;
  prod_orders = s.prod_orders;
  shop_asks = put doc a s.shop_asks;
  history = s.history;
  next_ticket = s.next_ticket;
}

abbrev pub numbered {ℓ} : {A : Type ℓ} → ℕ → Option A → Option (ℕ × A)
numbered doc none = none
numbered doc (some a) = some (doc, a)

-- The rows behind a ticket's `ref_id`; a label has none.
abbrev pub linked {ℓ} : {A : Type ℓ} → (ℕ → Option A) → RefId → Option (ℕ × A)
linked rows shop_transfer_label = none
linked rows direct_issue_label = none
linked rows (document doc) = numbered doc (rows doc)
