-- ===== src/Orders/Placing.antt =====
-- Sending an order and calling it off: `send` and `cancel` of
-- apps/api/src/modules/purchaseorders/service.ts.
use rch.Prelude.{
  ℕ, ◌*◌, Bool, not, List, [], ◌∷◌, ◌++◌, ◌==◌, every, length, ℤ, pos, ◌==ℤ◌, ltb_ℤ, one, round2,
  sum_of, ok, guard, require, ◌>>=◌, ◌>>◌,
}
use rch.Workflow.Status.{PoStatus, po_coded}
use rch.Workflow.Table.{can_transition}
use rch.Workflow.Tables.{po_transitions}
use rch.Billing.{times}
use rch.Purchasing.Claims.{ClaimSrc}
use rch.Orders.{
  PoLine, Buying, BuyingResult, no_vendor, inactive, no_lines, order_moved, received_against,
  no_reason, order_is, return_claims, with_order, logged, head,
}

-- `poValue` and `needsApproval` of packages/domain/src/purchasing.ts.
unfoldable pub po_value : List PoLine → ℤ
po_value lines = round2 (sum_of (λ l. times l.qty l.rate) lines)

abbrev pub po_approval_limit : ℤ
po_approval_limit = pos (25_000 * one)

unfoldable pub needs_approval : ℤ → ℤ → Bool
needs_approval value limit = ltb_ℤ limit value

unfoldable pub send : ℕ → ℕ → ℕ → Buying → BuyingResult Buying
send by id today s = do
  o ← head s id
  guard (not (length o.lines == 0)) no_lines
  v ← require (s.vendors o.vendor) no_vendor
  guard v.active inactive
  guard (can_transition po_transitions o.status PoStatus.ordered) order_moved
  ok (
      logged id (order_is PoStatus.ordered) by (
        with_order id
          (record o {
            status = PoStatus.ordered;
            needs_approval = needs_approval (po_value o.lines) po_approval_limit;
            at = today;
          })
          s))

-- The sources of all the lines.
abbrev pub sources : List PoLine → List ClaimSrc
sources [] = []
sources (l ∷ ls) = l.src ++ sources ls

-- `reason` is the reason without the blanks around it.
unfoldable pub cancel : ℕ → ℕ → List ℕ → Buying → BuyingResult Buying
cancel by id reason s = do
  o ← head s id
  guard (every (λ l. l.recv ==ℤ pos 0) o.lines) received_against
  guard (can_transition po_transitions o.status PoStatus.cancelled) order_moved
  guard (not (length reason == 0)) no_reason
  ok (
      logged id (order_is PoStatus.cancelled) by (
        with_order id (record o { status = PoStatus.cancelled })
          (return_claims (sources o.lines) s)))
