-- ===== src/Tickets/Tests.antt =====
-- The theorems on tickets at a concrete window: ticket 7 for two of item 1, from location 5 to 6.
use rch.Prelude.{
  ◌-ℤ◌, some, ℕ, ◌+◌, ◌≤◌, ◌≡◌, ◌≢◌, ◌↔◌, refl, true, false, none, List, [], ◌∷◌, length, arith,
  ◌*◌, ◌==◌, if◌then◌else◌, pos, one, ◌≤ℤ◌, ◌+ℤ◌, round3, ◌&&◌, Bool-cases, inl, inr, ◌<◌,
}
use rch.Workflow.Status.{TktStatus, ReqStatus}
use rch.Tickets.Transfer.{transfer}
use rch.Tickets.Sending.{transfer-IsCovered}
use rch.Catalog.{raw, kitchen_key, used_on_arrival, mrp_good, outlet_type, or_zero}
use rch.Ledger.{Ledger, opening, post_moves, rebuild_balances}
use rch.Reservations.Held.{held, held_for}
use rch.Ledger.Cache.{IsCached, post_moves-IsCached}
use rch.Tickets.Cover.{IsCovered, IsBacked, put_lem}
use rch.Tickets.Movement.{AreLines, wanted}
use rch.Tickets.Landing.{landed, consumed_at_once, used_up}
use rch.Tickets.Receiving.{receive-landed}
use rch.Tickets.Promise.{handover-IsCovered, cancel-IsCovered, handover-never_short}
use rch.Workflow.Table.{can_transition}
use rch.Workflow.Tables.{ticket_transitions}
use rch.Tickets.Withdrawing.{unissued, cancel_request_lem}
use rch.Tickets.{
  StockRequest, document, direct, direct_issue_label, with_status, Ticket, Store, put, committed,
  shop_transfer, shop_transfer_label, refused, locked,
}
use rch.Tickets.Service.{otp_matches, Claims, handover, receive, cancel, otp_attempts_max}
use rch.Tickets.Code.{is_done, MayCollect, handover_done_iff}
use rch.Tickets.Lock.{tries, handover-locked}

abbrev box : Ticket
box = record {
  ref_type = shop_transfer;
  req = shop_transfer_label;
  from = 5;
  to = 6;
  st = TktStatus.issued;
  otp = 4 ∷ 8 ∷ 1 ∷ 5 ∷ 1 ∷ 6 ∷ [];
  otp_attempts = 0;
  lines = record { it = 1; qty = pos (2 * one) } ∷ [];
}

-- Three of item 1 are entered as the opening stock.
abbrev opened : Ledger
opened =
    post_moves
      (record {
        loc = 5;
        it = 1;
        qty = pos (3 * one);
        kind = opening;
        ref_type = 0;
        ref_id = 0;
        by = none;
        reverses = none;
      }
        ∷ [])
      (record { moves = []; balances = λ l i. none })

opened-IsCached : IsCached opened
unfolding rebuild_balances
opened-IsCached = (post_moves-IsCached _ _ (record { cached = λ l i. refl; decimals = tt })).0

abbrev window : Store
window = record {
  master = record {
    items = λ it. some (record { t = mrp_good; gst = 0; mrp = none; src = none });
    locations = λ l. some (record { type = outlet_type; list = none; active = true });
  };
  ledger = opened;
  rsv = record { loc = 5; it = 1; qty = pos (2 * one); ticket = 7; released = false } ∷ [];
  tickets = put 7 box (λ id. none);
  requests = λ id. none;
  prod_orders = λ id. none;
  shop_asks = λ id. none;
  history = [];
  next_ticket = 8;
}

held_there : (l i : ℕ) → held window.rsv l i ≤ℤ or_zero (opened.balances l i)
unfolding post_moves round3 ◌+ℤ◌
held_there l i = elim (Bool-cases ((5 == l) && (1 == i))) [
  | inl e ↦ rw e (omega arith)
  | inr e ↦ rw e (omega arith)
]

box_held :
    (l i : ℕ) → held_for 7 window.rsv l i ≡ (if box.from == l then wanted i box.lines else pos 0)
box_held l i = elim (Bool-cases (5 == l)) [
  | inl e ↦ elim (Bool-cases (1 == i)) [ inl f ↦ rw (e, f) refl | inr f ↦ rw (e, f) refl ]
  | inr e ↦ rw e refl
]

window-IsCovered : IsCovered window
window-IsCovered = record {
  cached = opened-IsCached;
  holds = (((refl, refl), omega arith), tt);
  covered = held_there;
  lines =
      put_lem (λ k u. AreLines u.lines) 7 box (λ id. none) (((refl, refl), omega arith), tt)
        (λ other u e f. cc);
  backed =
      put_lem (IsBacked window.rsv) 7 box (λ id. none) (λ e l i. box_held l i) (λ other u e f. cc);
}

abbrev desk : Claims
desk = record { sub = 3; loc = 5 }

handover_done_iff_example :
    (is_done (handover desk 7 box.otp window) ≡ true) ↔ MayCollect desk 7 box.otp window box
handover_done_iff_example = handover_done_iff desk 7 box.otp window box refl

abbrev wrong : List ℕ
wrong = 0 ∷ 0 ∷ 0 ∷ 0 ∷ 0 ∷ 0 ∷ []

wrong≢code : wrong ≢ box.otp
wrong≢code h = cc

handover-locked_example :
    ((tries desk 7 (wrong ∷ wrong ∷ wrong ∷ wrong ∷ wrong ∷ []) window).ledger ≡ window.ledger)
    × ((tries desk 7 (wrong ∷ wrong ∷ wrong ∷ wrong ∷ wrong ∷ []) window).rsv ≡ window.rsv)
    × (5 ≤ 0 + length (wrong ∷ wrong ∷ wrong ∷ wrong ∷ wrong ∷ [])
        → handover desk 7 box.otp (tries desk 7 (wrong ∷ wrong ∷ wrong ∷ wrong ∷ wrong ∷ []) window)
          ≡ refused locked)
handover-locked_example =
    handover-locked desk 7 box (wrong ∷ wrong ∷ wrong ∷ wrong ∷ wrong ∷ []) box.otp window refl refl
      refl (omega arith) (wrong≢code, (wrong≢code, (wrong≢code, (wrong≢code, (wrong≢code, tt)))))

handover-IsCovered_example : IsCovered (committed window (handover desk 7 box.otp window))
handover-IsCovered_example = handover-IsCovered desk 7 box.otp window window-IsCovered

-- A direct issue of item 1 to the kitchen, where it is a raw material.
abbrev crate : Ticket
crate = record box { ref_type = direct; req = direct_issue_label; to = kitchen_key }

abbrev issuing : Store
issuing = record window {
  master = record {
    items = λ it. some (record { t = raw; gst = 0; mrp = none; src = none });
    locations = λ l. some (record { type = outlet_type; list = none; active = true });
  };
  tickets = put 7 crate (λ id. none);
}

issuing-IsCovered : IsCovered issuing
issuing-IsCovered = record {
  cached = opened-IsCached;
  holds = (((refl, refl), omega arith), tt);
  covered = held_there;
  lines =
      put_lem (λ k u. AreLines u.lines) 7 crate (λ id. none) (((refl, refl), omega arith), tt)
        (λ other u e f. cc);
  backed =
      put_lem (IsBacked window.rsv) 7 crate (λ id. none) (λ e l i. box_held l i)
        (λ other u e f. cc);
}

-- The crate on its way, and the kitchen that takes it in.
abbrev on_its_way : Store
on_its_way = committed issuing (handover desk 7 crate.otp issuing)

abbrev taker : Claims
taker = record { sub = 4; loc = kitchen_key }

abbrev carried : Ticket
carried = with_status TktStatus.collected crate

is_on_its_way : on_its_way.tickets 7 ≡ some carried
unfolding committed handover can_transition ticket_transitions otp_matches post_moves round3 ◌-ℤ◌
    ◌+ℤ◌
is_on_its_way = refl

-- Two are consumed in the kitchen, and none is on its shelf.
kitchen_takes :
    (landed on_its_way carried kitchen_key 1 ≡ pos 0)
    × (consumed_at_once on_its_way carried kitchen_key 1 ≡ pos (2 * one))
unfolding committed handover can_transition ticket_transitions otp_matches post_moves round3 ◌-ℤ◌
    ◌+ℤ◌ used_on_arrival
kitchen_takes = (refl, refl)

receive-landed_example :
    IsCovered (committed on_its_way (receive taker 7 on_its_way))
    × ((is_done (receive taker 7 on_its_way) ≡ true)
        ↔ ((taker.loc ≡ carried.to) × (carried.st ≡ TktStatus.collected)))
    × ((committed on_its_way (receive taker 7 on_its_way)).tickets 7
        ≡ some (
            if is_done (receive taker 7 on_its_way)
            then with_status TktStatus.received carried
            else carried))
    × ((l i : ℕ)
        → (or_zero ((committed on_its_way (receive taker 7 on_its_way)).ledger.balances l i)
            ≡ or_zero (on_its_way.ledger.balances l i)
              +ℤ (if is_done (receive taker 7 on_its_way)
                  then landed on_its_way carried l i
                  else pos 0))
          × (used_up l i (committed on_its_way (receive taker 7 on_its_way)).ledger.moves
              ≡ used_up l i on_its_way.ledger.moves
                -ℤ (if is_done (receive taker 7 on_its_way)
                    then consumed_at_once on_its_way carried l i
                    else pos 0)))
receive-landed_example =
    receive-landed taker 7 on_its_way carried
      (handover-IsCovered desk 7 crate.otp issuing issuing-IsCovered) is_on_its_way

cancel-IsCovered_example : IsCovered (committed window (cancel desk 7 (99 ∷ []) window))
cancel-IsCovered_example = cancel-IsCovered desk 7 (99 ∷ []) window window-IsCovered

handover-never_short_example : (is_done (handover desk 7 box.otp window) ≡ true) ↔ (
    (desk.loc ≡ box.from)
    × (box.st ≡ TktStatus.issued)
    × (box.otp_attempts < otp_attempts_max)
    × (box.otp ≡ box.otp))
handover-never_short_example = handover-never_short desk 7 box.otp window box window-IsCovered refl

none_numbered_8 : (l i : ℕ) → held_for window.next_ticket window.rsv l i ≡ pos 0
none_numbered_8 l i = elim (Bool-cases ((5 == l) && (1 == i))) [
  | inl e ↦ rw e refl
  | inr e ↦ rw e refl
]

-- One more of item 1 is free, and promised to the shop at 6.
transfer-IsCovered_example : IsCovered (
    committed window
      (transfer desk (record { it = 1; qty = pos one; from = 5; to = 6 }) wrong window))
transfer-IsCovered_example =
    transfer-IsCovered desk (record { it = 1; qty = pos one; from = 5; to = 6 }) wrong window
      window-IsCovered none_numbered_8

-- Request 3 was redirected to the outlet at 5, which withdraws the ticket.
abbrev asked : StockRequest
asked = record { status = ReqStatus.ticket_issued; ticket = some 7; lines = [] }

abbrev covering : Ticket
covering = record box { req = document 3 }

abbrev redirected_one : Store
redirected_one = record window {
  tickets = put 7 covering (λ id. none);
  requests = put 3 asked (λ id. none);
}

abbrev said : List ℕ
said = 99 ∷ []

cancel_request_lem_example :
    ((is_done (cancel desk 7 said redirected_one) ≡ true) ↔ (
      (desk.loc ≡ covering.from)
      × ((length said == 0) ≡ false)
      × (covering.st ≡ TktStatus.issued)
      × (true ≡ true)))
    × ((committed redirected_one (cancel desk 7 said redirected_one)).requests 3
        ≡ some (
            if is_done (cancel desk 7 said redirected_one) && false then unissued asked else asked))
cancel_request_lem_example =
    cancel_request_lem desk 7 said redirected_one covering true 3 asked refl refl refl refl
