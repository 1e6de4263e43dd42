-- ===== src/Orders/Patching.antt =====
-- The vendor and the expected date of an order: `patch` of
-- apps/api/src/modules/purchaseorders/service.ts.
use rch.Prelude.{
  ℕ, ◌+◌, Bool, true, false, ◌&&◌, ◌||◌, not, Option, none, some, is_some, List, [], ◌∷◌,
  if◌then◌else◌, ℤ, pos, ◌==ℤ◌, ltb_ℤ, ok, guard, require, ◌>>=◌, ◌>>◌,
}
use rch.Workflow.Status.{PoStatus, po_coded}
use rch.Orders.{
  PoLine, PurchaseOrder, Vendor, Buying, BuyingResult, no_vendor, inactive, not_draft,
  nothing_to_change, nothing_expected, with_order, written_lines, contract_rate, head,
}
use rch.Orders.Drafting.{cost_of, is_draft}

pub record PatchPoBody : Type 0 where
  pub vendor : Option ℕ
  pub eta : Option ℕ

-- A line on the standard cost, or on the rate of the vendor that is left, moves to the new rate.
abbrev pub follows : Option ℤ → ℤ → ℤ → Bool
follows old cost rate = (rate ==ℤ cost) || elim old [ none ↦ false | some r ↦ rate ==ℤ r ]

abbrev pub repriced : Option ℤ → Option ℤ → ℤ → PoLine → PoLine
repriced none old cost l = l
repriced (some to) old cost l =
    if ltb_ℤ (pos 0) to && not (l.rate ==ℤ to) && follows old cost l.rate
    then record l { rate = to }
    else l

abbrev pub repriced_lines : Buying → ℕ → ℕ → ℕ → List PoLine → List PoLine
repriced_lines s old new today [] = []
repriced_lines s old new today (l ∷ ls) =
    repriced (contract_rate s.contracts new today l.it) (contract_rate s.contracts old today l.it)
      (cost_of s l.it) l
    ∷ repriced_lines s old new today ls

abbrev pub moved_to : Buying → PurchaseOrder → ℕ → ℕ → Vendor → PurchaseOrder
moved_to s o today new v = record o {
  vendor = new;
  eta = today + v.lead_days;
  lines = written_lines (repriced_lines s o.vendor new today o.lines);
}

abbrev pub patch_vendor : Buying → PurchaseOrder → ℕ → Option ℕ → BuyingResult PurchaseOrder
patch_vendor s o today none = ok o
patch_vendor s o today (some new) = do
  guard (is_draft o.status) not_draft
  v ← require (s.vendors new) no_vendor
  guard v.active inactive
  ok (moved_to s o today new v)

abbrev pub is_over : PoStatus → Bool
is_over PoStatus.received = true
is_over PoStatus.cancelled = true
is_over st = false

abbrev pub patch_eta : PurchaseOrder → Option ℕ → BuyingResult PurchaseOrder
patch_eta o none = ok o
patch_eta o (some eta) = do
  guard (not (is_over o.status)) nothing_expected
  ok (record o { eta = eta })

unfoldable pub patch : ℕ → PatchPoBody → ℕ → Buying → BuyingResult Buying
patch id body today s = do
  o ← head s id
  guard (is_some body.vendor || is_some body.eta) nothing_to_change
  moved ← patch_vendor s o today body.vendor
  expected ← patch_eta moved body.eta
  ok (with_order id expected s)
