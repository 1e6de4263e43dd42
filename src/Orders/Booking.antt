-- ===== src/Orders/Booking.antt =====
-- Booking a delivery in, and closing an order short: `receive` and `closeShort` of
-- apps/api/src/modules/grn/service.ts.
use rch.Prelude.{
  ℕ, ◌+◌, Bool, true, false, ◌&&◌, not, none, some, is_some, List, [], ◌∷◌, ◌++◌, ◌==◌,
  if◌then◌else◌, any, filter, length, ℤ, pos, ◌+ℤ◌, ltb_ℤ, round3, ok, guard, ◌>>=◌, ◌>>◌,
}
use rch.Workflow.Status.{PoStatus, po_coded}
use rch.Workflow.Table.{can_transition}
use rch.Workflow.Tables.{po_transitions}
use rch.Catalog.{store_key, quarantine_key}
use rch.Ledger.{grn_ref, Move, MoveKind, grn_accept, grn_reject, post_moves}
use rch.Purchasing.Receipt.{
  ReceiptCheckInput, ReceivedLine, OrderedLine, check_receipt_line, net_received, receipt_status,
}
use rch.Purchasing.Claims.{ShortLine, fold_claims, shortfall_claims}
use rch.Orders.{
  PoLine, PurchaseOrder, Grn, Buying, BuyingResult, order_moved, not_expecting, no_note,
  wrong_lines, nothing_arrived, rejected_alone, bad_line, no_reason, not_partly_received, order_is,
  closed_short, given_back, add_ordered, with_order, logged, head,
}

-- `dc` is the vendor's delivery note number without the blanks around it; a line of the order has
-- a line of the body.
pub record ReceivePoBody : Type 0 where
  pub dc : List ℕ
  pub lines : List ReceiptCheckInput

abbrev pub expects : PoStatus → Bool
expects PoStatus.ordered = true
expects PoStatus.partially_received = true
expects st = false

abbrev pub arrived : ReceiptCheckInput → Bool
arrived r = ltb_ℤ (pos 0) r.recv

abbrev pub received_on : PoLine → ReceivedLine
received_on l = record { recv = l.recv; rejected = l.rejected }

-- The first of the loops: nothing may be turned away of what did not arrive.
abbrev pub none_rejected_alone : List ReceiptCheckInput → Bool
none_rejected_alone [] = true
none_rejected_alone (r ∷ rs) =
    not (not (arrived r) && ltb_ℤ (pos 0) r.rejected) && none_rejected_alone rs

abbrev pub line_fits : PoLine → ReceiptCheckInput → ℕ → Bool
line_fits l r today = not (
    is_some (
      check_receipt_line
        (record { ordered = l.qty; received_before = net_received (received_on l) }) r today))

-- The second: every line that arrived passes the check.
unfoldable pub all_fit : List PoLine → List ReceiptCheckInput → ℕ → Bool
all_fit [] rs today = true
all_fit (l ∷ ls) [] today = true
all_fit (l ∷ ls) (r ∷ rs) today =
    let rest = all_fit ls rs today in (if arrived r then line_fits l r today else true) && rest

abbrev pub accepted_of : ReceiptCheckInput → ℤ
accepted_of r = net_received (record { recv = r.recv; rejected = r.rejected })

-- A move of a receipt onto one of the two shelves.
abbrev pub grn_move : ℕ → MoveKind → ℕ → ℤ → ℕ → ℕ → Move
grn_move loc kind it q receipt by = record {
  loc = loc;
  it = it;
  qty = q;
  kind = kind;
  ref_type = grn_ref;
  ref_id = receipt;
  by = some by;
  reverses = none;
}

abbrev pub line_moves : PoLine → ReceiptCheckInput → ℕ → ℕ → List Move
line_moves l r receipt by =
    (if ltb_ℤ (pos 0) (accepted_of r)
      then grn_move store_key grn_accept l.it (accepted_of r) receipt by ∷ []
      else [])
    ++ (if ltb_ℤ (pos 0) r.rejected
        then grn_move quarantine_key grn_reject l.it (round3 r.rejected) receipt by ∷ []
        else [])

abbrev pub took_in : PoLine → ReceiptCheckInput → PoLine
took_in l r =
    if arrived r
    then record l { recv = round3 (l.recv +ℤ r.recv); rejected = round3 (l.rejected +ℤ r.rejected) }
    else l

pub record Booked : Type 0 where
  pub lines : List PoLine
  pub moves : List Move
  pub grns : List Grn

abbrev grn_row : ℕ → ℕ → PoLine → ReceiptCheckInput → Grn
grn_row id n l r = record {
  po = id;
  number = n;
  it = l.it;
  accepted = accepted_of r;
  rejected = round3 r.rejected;
}

-- The third: the lines, the moves and the receipts of a delivery, of which `n` is the last number
-- that was given.
unfoldable pub book : ℕ → ℕ → ℕ → List PoLine → List ReceiptCheckInput → Booked
book by id n [] rs = record { lines = []; moves = []; grns = [] }
book by id n (l ∷ ls) [] = record { lines = l ∷ ls; moves = []; grns = [] }
book by id n (l ∷ ls) (r ∷ rs) =
    let next = book by id (n + 1) ls rs in
    let same = book by id n ls rs in
    if arrived r
    then record {
      lines = took_in l r ∷ next.lines;
      moves = line_moves l r (n + 1) by ++ next.moves;
      grns = grn_row id (n + 1) l r ∷ next.grns;
    }
    else record { lines = l ∷ same.lines; moves = same.moves; grns = same.grns }

abbrev pub grn_count : ℕ → List Grn → ℕ
grn_count id grns = length (filter (λ g. g.po == id) grns)

abbrev pub as_ordered : List PoLine → List OrderedLine
as_ordered [] = []
as_ordered (l ∷ ls) = record { qty = l.qty; arrived = received_on l } ∷ as_ordered ls

abbrev pub after_receipt : ℕ → ℕ → PurchaseOrder → Booked → Buying → Buying
after_receipt by id o b s =
    let st = receipt_status (as_ordered b.lines) in
    logged id (order_is st) by (
      with_order id (record o { status = st; lines = b.lines })
        (record s { grns = s.grns ++ b.grns; ledger = post_moves b.moves s.ledger }))

unfoldable pub receive : ℕ → ℕ → ReceivePoBody → ℕ → Buying → BuyingResult Buying
receive by id body today s = do
  o ← head s id
  guard (expects o.status) not_expecting
  guard (not (length body.dc == 0)) no_note
  guard (length body.lines == length o.lines) wrong_lines
  guard (any arrived body.lines) nothing_arrived
  guard (none_rejected_alone body.lines) rejected_alone
  guard (all_fit o.lines body.lines today) bad_line
  let b = book by id (grn_count id s.grns) o.lines body.lines
  guard (can_transition po_transitions o.status (receipt_status (as_ordered b.lines))) order_moved
  ok (after_receipt by id o b s)

abbrev pub short_lines : List PoLine → List ShortLine
short_lines [] = []
short_lines (l ∷ ls) =
    record { qty = l.qty; received = received_on l; src = l.src } ∷ short_lines ls

abbrev pub is_partly : PoStatus → Bool
is_partly PoStatus.partially_received = true
is_partly st = false

-- `reason` is the reason without the blanks around it.
unfoldable pub close_short : ℕ → ℕ → List ℕ → Buying → BuyingResult Buying
close_short by id reason s = do
  o ← head s id
  guard (not (length reason == 0)) no_reason
  guard (is_partly o.status) not_partly_received
  let back = fold_claims (shortfall_claims (short_lines o.lines))
  ok (
      logged id closed_short by (
        with_order id (record o { status = PoStatus.received })
          (record s { requisitions = add_ordered back given_back s.requisitions })))
