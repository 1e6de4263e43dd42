-- ===== src/Orders/Asking.antt =====
-- What the central store asks to have bought, and the buyer's decision on it:
-- apps/api/src/modules/requisitions/service.ts with its repo.
use rch.Prelude.{
  ℕ, Bool, true, false, ◌||◌, not, ◌+◌, Option, none, some, is_some, List, [], ◌∷◌, ◌==◌, every,
  any, length, ℤ, pos, ltb_ℤ, round3, ok, guard, require, ◌>>=◌, ◌>>◌,
}
use rch.Workflow.Status.{PrqStatus, prq_coded}
use rch.Workflow.Table.{can_transition}
use rch.Workflow.Tables.{requisition_transitions}
use rch.Catalog.{Item, Master, is_purchased}
use rch.Purchasing.Approval.{AskedLine, ApprovalLine, plan_prq_approval}
use rch.Orders.{
  PrqLine, Requisition, Buying, BuyingResult, no_item, no_quantity, combine_lines, made_in_house,
  no_reason, no_such_requisition, wrong_decisions, requisition_moved, requisition_is, put, logged,
}

-- Every line names an item on the master.
unfoldable pub assert_known_items : Master → List AskedLine → BuyingResult (Unit {0})
assert_known_items m [] = ok tt
assert_known_items m (l ∷ ls) = do
  guard (is_some (m.items l.it)) (no_item l.it)
  assert_known_items m ls

-- A line of an item that stands in an earlier line; `seen` are the items so far.
abbrev pub is_repeated : List ℕ → List AskedLine → Bool
is_repeated seen [] = false
is_repeated seen (l ∷ ls) = any (λ k. k == l.it) seen || is_repeated (l.it ∷ seen) ls

abbrev pub all_asked : List AskedLine → Bool
all_asked lines = every (λ l. ltb_ℤ (pos 0) l.qty) lines

-- `insertLines`, with the columns that it leaves at their default.
abbrev pub inserted_line : AskedLine → PrqLine
inserted_line l = record {
  it = l.it;
  qty = round3 l.qty;
  appr = pos 0;
  ordered = pos 0;
  short = none;
}

abbrev pub inserted_lines : List AskedLine → List PrqLine
inserted_lines [] = []
inserted_lines (l ∷ ls) = inserted_line l ∷ inserted_lines ls

abbrev pub with_requisition : ℕ → Requisition → Buying → Buying
with_requisition id r s = record s { requisitions = put id r s.requisitions }

abbrev pub next_requisition : Buying → Buying
next_requisition s = record s { next_prq = s.next_prq + 1 }

-- `create`: the central store's ask.
unfoldable pub create_requisition : ℕ → List AskedLine → Buying → BuyingResult Buying
create_requisition by lines s = do
  assert_known_items s.master lines
  guard (all_asked lines) no_quantity
  guard (not (is_repeated [] lines)) combine_lines
  ok (
      logged s.next_prq (requisition_is PrqStatus.sent) by (
        with_requisition s.next_prq
          (record { status = PrqStatus.sent; lines = inserted_lines lines }) (next_requisition s)))

abbrev is_bought : Option Item → Bool
is_bought none = false
is_bought (some item) = is_purchased item.t

abbrev pub all_bought : Master → List AskedLine → Bool
all_bought m lines = every (λ l. is_bought (m.items l.it)) lines

-- Approved in full, with nothing short.
abbrev pub granted_line : AskedLine → PrqLine
granted_line l = record (inserted_line l) { appr = round3 l.qty; short = some (pos 0) }

abbrev pub granted_lines : List AskedLine → List PrqLine
granted_lines [] = []
granted_lines (l ∷ ls) = granted_line l ∷ granted_lines ls

-- `addDirect`: the buyer's own line on the procurement list. `note` is the note without the blanks
-- around it.
unfoldable pub add_direct : ℕ → List AskedLine → List ℕ → Buying → BuyingResult Buying
add_direct by lines note s = do
  assert_known_items s.master lines
  guard (all_asked lines) no_quantity
  guard (not (is_repeated [] lines)) combine_lines
  guard (all_bought s.master lines) made_in_house
  guard (not (length note == 0)) no_reason
  ok (
      logged s.next_prq (requisition_is PrqStatus.approved) by (
        with_requisition s.next_prq
          (record { status = PrqStatus.approved; lines = granted_lines lines })
          (next_requisition s)))

abbrev pub as_asked : List PrqLine → List AskedLine
as_asked [] = []
as_asked (l ∷ ls) = record { it = l.it; qty = l.qty } ∷ as_asked ls

-- `setLineApprovals`: line by line, in their order.
abbrev pub with_approvals : List PrqLine → List ApprovalLine → List PrqLine
with_approvals [] out = []
with_approvals (l ∷ ls) [] = l ∷ ls
with_approvals (l ∷ ls) (a ∷ out) =
    record l { appr = a.appr; short = some a.short } ∷ with_approvals ls out

abbrev pub is_declined : PrqStatus → Bool
is_declined PrqStatus.declined = true
is_declined st = false

-- `approve`; a decision that approves nothing carries a reason.
unfoldable pub approve : ℕ → ℕ → List ℤ → List ℕ → Buying → BuyingResult Buying
approve by id appr note s = do
  r ← require (s.requisitions id) no_such_requisition
  guard (length appr == length r.lines) wrong_decisions
  let (out, st) = plan_prq_approval (as_asked r.lines) appr
  guard (not (is_declined st) || not (length note == 0)) no_reason
  guard (can_transition requisition_transitions r.status st) requisition_moved
  ok (
      logged id (requisition_is st) by
        (with_requisition id (record { status = st; lines = with_approvals r.lines out }) s))

abbrev pub refused_lines : List PrqLine → List PrqLine
refused_lines [] = []
refused_lines (l ∷ ls) = record l { appr = pos 0; short = some l.qty } ∷ refused_lines ls

unfoldable pub decline : ℕ → ℕ → List ℕ → Buying → BuyingResult Buying
decline by id note s = do
  r ← require (s.requisitions id) no_such_requisition
  guard (not (length note == 0)) no_reason
  guard (can_transition requisition_transitions r.status PrqStatus.declined) requisition_moved
  ok (
      logged id (requisition_is PrqStatus.declined) by (
        with_requisition id (record { status = PrqStatus.declined; lines = refused_lines r.lines })
          s))
