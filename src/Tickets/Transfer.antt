-- ===== src/Tickets/Transfer.antt =====
-- A shop transfer: `transfer` of apps/api/src/modules/tickets/service.ts.
use rch.Prelude.{
  is_some, ℕ, ◌+◌, Bool, true, false, ◌&&◌, not, Option, none, some, List, [], ◌∷◌, ◌==◌,
  if◌then◌else◌, ℤ, pos, ◌-ℤ◌, ltb_ℤ, leb_ℤ, round3,
}
use rch.Workflow.Status.{req_coded, tkt_coded, pord_coded, shop_ask_coded}
use rch.Catalog.{Location, LocationType, store_type, kitchen_type, outlet_type, or_zero}
use rch.Reservations.{reserved_at}
use rch.Tickets.{
  TicketDraft, Store, Outcome, refused, write_ticket, no_item, no_location, shop_transfer,
  no_quantity, not_outlets, closed, not_enough_free, shop_transfer_label,
}
use rch.Tickets.Service.{Claims}

pub record TransferBody : Type 0 where
  pub it : ℕ
  pub qty : ℤ
  pub from : ℕ
  pub to : ℕ

abbrev pub is_outlet : LocationType → Bool
is_outlet store_type = false
is_outlet kitchen_type = false
is_outlet outlet_type = true

abbrev pub free_at : Store → ℕ → ℕ → ℤ
free_at s l i = round3 (or_zero (s.ledger.balances l i) -ℤ reserved_at s.rsv l i)

-- The next number of the series, taken.
abbrev pub numbered_on : Store → Store
numbered_on s = record {
  master = s.master;
  ledger = s.ledger;
  rsv = s.rsv;
  tickets = s.tickets;
  requests = s.requests;
  prod_orders = s.prod_orders;
  shop_asks = s.shop_asks;
  history = s.history;
  next_ticket = s.next_ticket + 1;
}

abbrev pub transfer_draft : Claims → TransferBody → TicketDraft
transfer_draft claims body = record {
  ref_type = shop_transfer;
  ref_id = shop_transfer_label;
  from = body.from;
  to = body.to;
  lines = record { it = body.it; qty = body.qty } ∷ [];
  by = claims.sub;
}

abbrev pub transfer_between :
    Claims → TransferBody → List ℕ → Store → Option Location → Option Location → Outcome
transfer_between claims body otp s none to = refused no_location
transfer_between claims body otp s (some from) none = refused no_location
transfer_between claims body otp s (some from) (some to) =
    if not (is_outlet from.type && is_outlet to.type)
    then refused not_outlets
    else if not (from.active && to.active)
    then refused closed
    else if not (leb_ℤ body.qty (free_at s body.from body.it))
    then refused not_enough_free
    else write_ticket (transfer_draft claims body) s.next_ticket otp (numbered_on s)

-- `otp` is the code that `randomInt` draws.
unfoldable pub transfer : Claims → TransferBody → List ℕ → Store → Outcome
transfer claims body otp s =
    if not (ltb_ℤ (pos 0) body.qty)
    then refused no_quantity
    else if not (is_some (s.master.items body.it))
    then refused no_item
    else if body.from == body.to
    then refused not_outlets
    else transfer_between claims body otp s (s.master.locations body.from)
        (s.master.locations body.to)
