-- ===== src/Purchasing/Receipt.antt =====
-- What a store keeper may book in: packages/domain/src/receipt.ts. Dates are ordered only, and a
-- text only for being blank, so a date is a natural and an optional one an `Option`.
pub mod Accepting
use rch.Prelude.{
  ℕ, zero, suc, ◌*◌, ◌/◌, ◌≡◌, Bool, true, false, ◌&&◌, ◌||◌, not, Option, none, some, List, every,
  leb, ltb, if◌then◌else◌, ℤ, pos, negsuc, sub_ℕ, ◌+ℤ◌, ◌-ℤ◌, ltb_ℤ, leb_ℤ, round3, ◌≤ℤ◌, ◌<ℤ◌,
  arith,
}
use rch.Workflow.Status.{PoStatus, received, partially_received}

-- `l.ordered * RECEIPT_TOLERANCE`, the tolerance being 1.02.
abbrev pub tolerated : ℤ → ℤ
tolerated (pos n) = pos (n * 102 / 100)
tolerated (negsuc n) = sub_ℕ 0 (suc n * 102 / 100)

pub record ReceiptCheckLine : Type 0 where
  pub ordered : ℤ
  pub received_before : ℤ

pub record ReceiptCheckInput : Type 0 where
  pub recv : ℤ
  pub rejected : ℤ
  pub batch_blank : Bool
  pub mfg : Option ℕ
  pub exp : Option ℕ

-- The refusals, in the order of their checks.
pub data ReceiptRefusal : Type 0 where
  over_tolerance bad_rejected no_batch no_dates expiry_before_mfg already_expired : ReceiptRefusal

unfoldable pub check_dates : Option ℕ → Option ℕ → ℕ → Option ReceiptRefusal
check_dates (some mfg) (some exp) today =
    if leb exp mfg
    then some expiry_before_mfg
    else if ltb exp today
    then some already_expired
    else none
check_dates _ _ today = some no_dates

unfoldable pub check_receipt_line : ReceiptCheckLine → ReceiptCheckInput → ℕ → Option ReceiptRefusal
check_receipt_line l r today =
    let total = round3 (l.received_before +ℤ r.recv) in
    if ltb_ℤ (round3 (tolerated l.ordered)) total
    then some over_tolerance
    else if ltb_ℤ r.rejected (pos 0) || ltb_ℤ r.recv r.rejected
    then some bad_rejected
    else if r.batch_blank
    then some no_batch
    else check_dates r.mfg r.exp today

pub record ReceivedLine : Type 0 where
  pub recv : ℤ
  pub rejected : ℤ

unfoldable pub net_received : ReceivedLine → ℤ
net_received l = round3 (l.recv -ℤ l.rejected)

pub record OrderedLine : Type 0 where
  pub qty : ℤ
  pub arrived : ReceivedLine

unfoldable pub receipt_status : List OrderedLine → PoStatus
receipt_status lines =
    if every (λ l. leb_ℤ l.qty (net_received l.arrived)) lines then received else partially_received
