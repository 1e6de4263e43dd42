-- ===== src/Orders/Drafting.antt =====
-- The draft of an order: `create`, `updateLine` and `removeLine` of
-- apps/api/src/modules/purchaseorders/service.ts.
use rch.Prelude.{
  ℕ, zero, suc, ◌+◌, Bool, true, false, ◌||◌, not, Option, none, some, is_some, List, [], ◌∷◌, ◌++◌,
  ◌==◌, if◌then◌else◌, every, length, get_elem?, ℤ, pos, ◌+ℤ◌, ◌-ℤ◌, ltb_ℤ, leb_ℤ, round3, ok,
  guard, require, ◌>>=◌, ◌>>◌,
}
use rch.Workflow.Status.{PrqStatus, PoStatus, po_coded}
use rch.Purchasing.Claims.{ClaimSrc, fold_claims, release_claim}
use rch.Orders.{
  PrqLine, Requisition, PoLine, PurchaseOrder, Vendor, Buying, BuyingResult, no_picks, no_vendor,
  inactive, no_quantity, no_rate, not_draft, nothing_to_change, no_requisition, no_requisition_line,
  not_pending, no_line, add_a_pick, order_is, line_at, taken, add_ordered, return_claims,
  with_order, logged, written_lines, contract_rate, rate_of, sync_contract_rates, head,
}

-- A pick off the procurement list, with the rate that the buyer set.
pub record Pick : Type 0 where
  pub prq : ℕ
  pub line : ℕ
  pub qty : ℤ
  pub rate : Option ℤ

pub record CreatePoBody : Type 0 where
  pub vendor : ℕ
  pub picks : List Pick

abbrev pub picked : List Pick → List ClaimSrc
picked [] = []
picked (p ∷ ps) = record { prq = p.prq; line = p.line; qty = round3 p.qty } ∷ picked ps

abbrev pub gives : PrqStatus → Bool
gives PrqStatus.approved = true
gives PrqStatus.partially_approved = true
gives st = false

-- Approved less ordered, of a requisition that has anything to give.
abbrev pub pending : Requisition → PrqLine → ℤ
pending r l = if gives r.status then round3 (l.appr -ℤ l.ordered) else pos 0

abbrev pub check_pick : Buying → ClaimSrc → BuyingResult (Unit {0})
check_pick s f = do
  r ← require (s.requisitions f.prq) (no_requisition f)
  l ← require (get_elem? r.lines f.line) (no_requisition_line f)
  guard (leb_ℤ f.qty (pending r l)) (not_pending f)

unfoldable pub check_picks : Buying → List ClaimSrc → BuyingResult (Unit {0})
check_picks s [] = ok tt
check_picks s (f ∷ fs) = do check_pick s f; check_picks s fs

-- The item behind a pick; the check has found it.
abbrev pub item_at : Buying → ℕ → ℕ → ℕ
item_at s prq line = elim (line_at s.requisitions prq line) [ none ↦ 0 | some l ↦ l.it ]

-- The first rate that the picks carry for an item.
abbrev given_rate : ℕ → Option ℤ → List (ℕ × ℤ) → BuyingResult (List (ℕ × ℤ))
given_rate it none rates = ok rates
given_rate it (some rate) rates =
    if is_some (rate_of rates it)
    then ok rates
    else (do guard (ltb_ℤ (pos 0) rate) no_rate; ok (rates ++ (it, rate) ∷ []))

unfoldable pub given_rates : Buying → List Pick → List (ℕ × ℤ) → BuyingResult (List (ℕ × ℤ))
given_rates s [] rates = ok rates
given_rates s (p ∷ ps) rates = do
  more ← given_rate (item_at s p.prq p.line) p.rate rates
  given_rates s ps more

-- Picks of one item make one line with several sources, in the order of the picks.
unfoldable pub merge_pick : ℕ → ClaimSrc → List PoLine → List PoLine
merge_pick it p [] =
    record { it = it; qty = p.qty; rate = pos 0; recv = pos 0; rejected = pos 0; src = p ∷ [] } ∷ []
merge_pick it p (l ∷ ls) =
    let rest = merge_pick it p ls in
    if l.it == it
    then record l { qty = round3 (l.qty +ℤ p.qty); src = l.src ++ p ∷ [] } ∷ ls
    else l ∷ rest

unfoldable pub merge_picks : Buying → List ClaimSrc → List PoLine → List PoLine
merge_picks s [] lines = lines
merge_picks s (p ∷ ps) lines = merge_picks s ps (merge_pick (item_at s p.prq p.line) p lines)

-- `rateFor` of packages/domain/src/purchasing.ts.
abbrev pub rate_for : Option ℤ → ℤ → ℤ
rate_for none cost = cost
rate_for (some rate) cost = if ltb_ℤ (pos 0) rate then rate else cost

abbrev pub cost_of : Buying → ℕ → ℤ
cost_of s it = elim (s.cost it) [ none ↦ pos 0 | some c ↦ c ]

abbrev pub priced : Buying → ℕ → ℕ → List (ℕ × ℤ) → List PoLine → List PoLine
priced s vendor today rates [] = []
priced s vendor today rates (l ∷ ls) =
    record l {
      rate = elim (rate_of rates l.it) [
        | some r ↦ r
        | none ↦ rate_for (contract_rate s.contracts vendor today l.it) (cost_of s l.it)
      ];
    }
    ∷ priced s vendor today rates ls

abbrev pub draft_of : ℕ → Vendor → ℕ → List PoLine → PurchaseOrder
draft_of vendor v today lines = record {
  vendor = vendor;
  status = PoStatus.draft;
  at = today;
  eta = today + v.lead_days;
  needs_approval = false;
  lines = written_lines lines;
}

-- `today` is the hospital's date.
unfoldable pub create : ℕ → CreatePoBody → ℕ → Buying → BuyingResult Buying
create by body today s = do
  guard (not (length body.picks == 0)) no_picks
  v ← require (s.vendors body.vendor) no_vendor
  guard v.active inactive
  guard (every (λ p. ltb_ℤ (pos 0) p.qty) body.picks) no_quantity
  let picks = picked body.picks
  check_picks s (fold_claims picks)
  rates ← given_rates s body.picks []
  let lines = priced s body.vendor today rates (merge_picks s picks [])
  ok (
      logged s.next_po (order_is PoStatus.draft) by (
        with_order s.next_po (draft_of body.vendor v today lines) (record s {
          requisitions = add_ordered (fold_claims picks) taken s.requisitions;
          contracts = sync_contract_rates body.vendor today rates s.contracts;
          next_po = s.next_po + 1;
        })))

pub record UpdatePoLineBody : Type 0 where
  pub qty : Option ℤ
  pub rate : Option ℤ

abbrev pub set_nth : ℕ → PoLine → List PoLine → List PoLine
set_nth n x [] = []
set_nth zero x (l ∷ ls) = x ∷ ls
set_nth (suc n) x (l ∷ ls) = l ∷ set_nth n x ls

abbrev pub drop_nth : ℕ → List PoLine → List PoLine
drop_nth n [] = []
drop_nth zero (l ∷ ls) = ls
drop_nth (suc n) (l ∷ ls) = l ∷ drop_nth n ls

-- The rate that is typed re-prices a live contract of the vendor for the item.
abbrev pub reprice : ℕ → ℕ → ℕ → Option ℤ → Buying → Buying
reprice vendor today it none s = s
reprice vendor today it (some rate) s = record s {
  contracts = sync_contract_rates vendor today ((it, rate) ∷ []) s.contracts;
}

abbrev pub rate_or : Option ℤ → ℤ → ℤ
rate_or none old = old
rate_or (some r) old = r

abbrev pub with_lines : ℕ → PurchaseOrder → List PoLine → Buying → Buying
with_lines id o lines s = with_order id (record o { lines = written_lines lines }) s

-- The line as it is cut to `want`.
abbrev pub cut_to : ℤ → Option ℤ → PoLine → PoLine
cut_to want rate l = record l {
  qty = want;
  rate = rate_or rate l.rate;
  src = (release_claim l.src (round3 (l.qty -ℤ want))).left;
}

abbrev pub change_line :
    ℕ → PurchaseOrder → ℕ → PoLine → Option ℤ → Option ℤ → ℕ → Buying → BuyingResult Buying
change_line id o n l none rate today s = ok (
    reprice o.vendor today l.it rate
      (with_lines id o (set_nth n (record l { rate = rate_or rate l.rate }) o.lines) s))
change_line id o n l (some typed) rate today s = do
  let want = round3 typed
  guard (ltb_ℤ (pos 0) want) no_quantity
  guard (leb_ℤ want l.qty) add_a_pick
  ok (
      reprice o.vendor today l.it rate (
        with_lines id o (set_nth n (cut_to want rate l) o.lines)
          (return_claims (release_claim l.src (round3 (l.qty -ℤ want))).released s)))

abbrev pub is_draft : PoStatus → Bool
is_draft PoStatus.draft = true
is_draft st = false

unfoldable pub update_line : ℕ → ℕ → UpdatePoLineBody → ℕ → Buying → BuyingResult Buying
update_line id n body today s = do
  o ← head s id
  guard (is_draft o.status) not_draft
  l ← require (get_elem? o.lines n) no_line
  guard (is_some body.qty || is_some body.rate) nothing_to_change
  change_line id o n l body.qty body.rate today s

unfoldable pub remove_line : ℕ → ℕ → Buying → BuyingResult Buying
remove_line id n s = do
  o ← head s id
  guard (is_draft o.status) not_draft
  l ← require (get_elem? o.lines n) no_line
  ok (with_lines id o (drop_nth n o.lines) (return_claims (release_claim l.src l.qty).released s))
