-- ===== src/Orders.antt =====
-- Requisitions, and the purchase orders and goods receipts that they fund:
-- apps/api/src/modules/requisitions, purchaseorders and grn, with apps/api/src/lib/claims.ts and
-- contract-rates.ts. A date is the number of a day.
pub mod Asking
pub mod Drafting
pub mod Patching
pub mod Placing
pub mod Booking
pub mod Pending
pub mod Within
pub mod Undecided
pub mod Bought
pub mod Decided
pub mod Writes
pub mod Kept
pub mod Steps
pub mod Shelving
pub mod Booked
pub mod Sources
pub mod Undone
mod Tests
use rch.Prelude.{
  ℕ, zero, suc, Bool, true, false, ◌&&◌, not, Option, none, some, List, [], ◌∷◌, ◌++◌, ◌==◌, leb,
  if◌then◌else◌, filter, get_elem?, ℤ, pos, ◌+ℤ◌, ◌-ℤ◌, ◌==ℤ◌, ltb_ℤ, round2, round3, Result, guard,
  require, ◌>>=◌, ◌>>◌,
}
use rch.Workflow.Status.{PrqStatus, PoStatus}
use rch.Catalog.{Master}
use rch.Ledger.{Ledger}
use rch.Purchasing.Claims.{ClaimSrc, fold_claims}

-- What a requisition line asks for, what it was approved for and how far it fell short, and what
-- orders have taken of it.
pub record PrqLine : Type 0 where
  pub it : ℕ
  pub qty : ℤ
  pub appr : ℤ
  pub ordered : ℤ
  pub short : Option ℤ

pub record Requisition : Type 0 where
  pub status : PrqStatus
  pub lines : List PrqLine

pub record PoLine : Type 0 where
  pub it : ℕ
  pub qty : ℤ
  pub rate : ℤ
  pub recv : ℤ
  pub rejected : ℤ
  pub src : List ClaimSrc

pub record PurchaseOrder : Type 0 where
  pub vendor : ℕ
  pub status : PoStatus
  pub at : ℕ
  pub eta : ℕ
  pub needs_approval : Bool
  pub lines : List PoLine

pub record Vendor : Type 0 where
  pub active : Bool
  pub lead_days : ℕ

pub record Contract : Type 0 where
  pub vendor : ℕ
  pub it : ℕ
  pub rate : ℤ
  pub valid_from : ℕ
  pub valid_to : ℕ
  pub active : Bool

-- `number` is the n of the id, the order's own followed by it.
pub record Grn : Type 0 where
  pub po : ℕ
  pub number : ℕ
  pub it : ℕ
  pub accepted : ℤ
  pub rejected : ℤ

pub data OrderEvent : Type 0 where
  order_is : PoStatus → OrderEvent
  closed_short : OrderEvent
  requisition_is : PrqStatus → OrderEvent

-- A line of the trail of an order, or of a requisition where the event is of one.
pub record OrderHistory : Type 0 where
  pub doc : ℕ
  pub event : OrderEvent
  pub by : ℕ

-- `cost` is the standard cost of an item.
pub record Buying : Type 0 where
  pub master : Master
  pub cost : ℕ → Option ℤ
  pub requisitions : ℕ → Option Requisition
  pub orders : ℕ → Option PurchaseOrder
  pub vendors : ℕ → Option Vendor
  pub contracts : List Contract
  pub grns : List Grn
  pub ledger : Ledger
  pub history : List OrderHistory
  pub next_po : ℕ
  pub next_prq : ℕ

pub data BuyingRefusal : Type 0 where
  no_picks no_vendor inactive no_quantity no_rate not_draft nothing_to_change : BuyingRefusal
  no_requisition no_requisition_line not_pending : ClaimSrc → BuyingRefusal
  no_order no_line add_a_pick no_lines order_moved received_against no_reason : BuyingRefusal
  nothing_expected not_expecting no_note wrong_lines nothing_arrived rejected_alone bad_line :
      BuyingRefusal
  not_partly_received no_such_requisition wrong_decisions requisition_moved combine_lines :
      BuyingRefusal
  made_in_house : BuyingRefusal
  no_item : ℕ → BuyingRefusal

abbrev pub BuyingResult : Type 0 → Type 0
BuyingResult A = Result BuyingRefusal A

abbrev pub on_line : ℕ → Option Requisition → Option PrqLine
on_line line none = none
on_line line (some r) = get_elem? r.lines line

abbrev pub line_at : (ℕ → Option Requisition) → ℕ → ℕ → Option PrqLine
line_at rows prq line = on_line line (rows prq)

-- `sign`: an order takes demand off the list, or gives it back.
pub data Sign : Type 0 where
  taken given_back : Sign

abbrev pub signed : Sign → ℤ → ℤ
signed taken q = q
signed given_back q = pos 0 -ℤ q

abbrev pub bump : ℤ → PrqLine → PrqLine
bump q l = record l { ordered = round3 (l.ordered +ℤ round3 q) }

abbrev pub bump_nth : ℕ → ℤ → List PrqLine → List PrqLine
bump_nth n q [] = []
bump_nth zero q (l ∷ ls) = bump q l ∷ ls
bump_nth (suc n) q (l ∷ ls) = l ∷ bump_nth n q ls

abbrev pub bump_row : ℕ → ℤ → Option Requisition → Option Requisition
bump_row line q none = none
bump_row line q (some r) = some (record r { lines = bump_nth line q r.lines })

-- `addOrdered` of lib/claims.ts.
unfoldable pub add_ordered :
    List ClaimSrc → Sign → (ℕ → Option Requisition) → ℕ → Option Requisition
add_ordered [] sign rows = rows
add_ordered (d ∷ ds) sign rows =
    add_ordered ds sign
      (λ k. if k == d.prq then bump_row d.line (signed sign d.qty) (rows k) else rows k)

-- `returnClaims`: an update that names no line writes nothing.
unfoldable pub return_claims : List ClaimSrc → Buying → Buying
return_claims released s = record s {
  requisitions = add_ordered (fold_claims released) given_back s.requisitions;
}

abbrev pub put {ℓ} : {A : Type ℓ} → ℕ → A → (ℕ → Option A) → ℕ → Option A
put key a rows k = if k == key then some a else rows k

abbrev pub with_order : ℕ → PurchaseOrder → Buying → Buying
with_order id o s = record s { orders = put id o s.orders }

abbrev pub logged : ℕ → OrderEvent → ℕ → Buying → Buying
logged id event by s = record s {
  history = s.history ++ record { doc = id; event = event; by = by } ∷ [];
}

-- `writeLines` of modules/purchaseorders/repo.ts: a draft's lines, rewritten wholesale.
abbrev pub stored_src : List ClaimSrc → List ClaimSrc
stored_src [] = []
stored_src (x ∷ xs) = record x { qty = round3 x.qty } ∷ stored_src xs

abbrev pub stored_line : PoLine → PoLine
stored_line l = record {
  it = l.it;
  qty = round3 l.qty;
  rate = round2 l.rate;
  recv = pos 0;
  rejected = pos 0;
  src = stored_src l.src;
}

abbrev pub written_lines : List PoLine → List PoLine
written_lines [] = []
written_lines (l ∷ ls) = stored_line l ∷ written_lines ls

-- The live contract of a vendor for an item, and its rate.
abbrev pub is_live : ℕ → ℕ → Contract → Bool
is_live vendor today c =
    (c.vendor == vendor) && c.active && leb c.valid_from today && leb today c.valid_to

abbrev pub contract_rate : List Contract → ℕ → ℕ → ℕ → Option ℤ
contract_rate [] vendor today it = none
contract_rate (c ∷ cs) vendor today it =
    let later = contract_rate cs vendor today it in
    elim later [
      | some rate ↦ some rate
      | none ↦ if is_live vendor today c && (c.it == it) then some c.rate else none
    ]

abbrev pub rate_of : List (ℕ × ℤ) → ℕ → Option ℤ
rate_of [] it = none
rate_of ((k, r) ∷ rates) it = let rest = rate_of rates it in if k == it then some r else rest

-- `syncContractRates` of lib/contract-rates.ts, over the contracts that are live.
abbrev moved_rate : Option ℤ → Contract → Contract
moved_rate none c = c
moved_rate (some next) c =
    if ltb_ℤ (pos 0) next && not (round2 next ==ℤ round2 c.rate)
    then record c { rate = round2 next }
    else c

unfoldable pub sync_contract_rates : ℕ → ℕ → List (ℕ × ℤ) → List Contract → List Contract
sync_contract_rates vendor today rates [] = []
sync_contract_rates vendor today rates (c ∷ cs) =
    (if is_live vendor today c then moved_rate (rate_of rates c.it) c else c)
    ∷ sync_contract_rates vendor today rates cs

-- `head` of both services.
abbrev pub head : Buying → ℕ → BuyingResult PurchaseOrder
head s id = require (s.orders id) no_order
