-- ===== src/Purchasing/Receipt/Accepting.antt =====
-- When a receipt line is booked in and when an order is received in full:
-- packages/domain/src/receipt.ts.
use rch.Prelude.{
  ℕ, ◌≡◌, ◌≤◌, ◌<◌, ◌↔◌, Bool, false, Option, none, some, arith, pos, ◌+ℤ◌, ◌≤ℤ◌, round3, leb_ℤ,
}
use rch.Workflow.Status.{ordered, po_coded}
use rch.Purchasing.Receipt.{
  tolerated, ReceiptCheckLine, ReceiptCheckInput, check_dates, check_receipt_line, net_received,
  OrderedLine,
}

abbrev pub DatesFit : Option ℕ → Option ℕ → ℕ → Type 0
DatesFit (some mfg) (some exp) today = (mfg < exp) × (today ≤ exp)
DatesFit _ _ today = ⊥

-- All that a line needs: within the tolerance, no more turned away than arrived, a batch, and a
-- manufacturing date before an expiry date that has not passed.
abbrev pub Accepts : ReceiptCheckLine → ReceiptCheckInput → ℕ → Type 0
Accepts l r today =
    (round3 (l.received_before +ℤ r.recv) ≤ℤ round3 (tolerated l.ordered))
    × (pos 0 ≤ℤ r.rejected)
    × (r.rejected ≤ℤ r.recv)
    × (r.batch_blank ≡ false)
    × DatesFit r.mfg r.exp today

check_dates_iff :
    (mfg exp : Option ℕ) (today : ℕ) → (check_dates mfg exp today ≡ none) ↔ DatesFit mfg exp today
unfolding check_dates
check_dates_iff none none today = (λ h. ground arith, λ h. absurd h)
check_dates_iff none (some e) today = (λ h. ground arith, λ h. absurd h)
check_dates_iff (some m) none today = (λ h. ground arith, λ h. absurd h)
check_dates_iff (some m) (some e) today = (λ h. ground arith, λ h. ground arith)

-- A receipt line passes the check exactly where it meets every one of the conditions.
pub check_receipt_line_iff :
    (l : ReceiptCheckLine) (r : ReceiptCheckInput) (today : ℕ)
    → (check_receipt_line l r today ≡ none) ↔ Accepts l r today
unfolding check_receipt_line
check_receipt_line_iff l r today = (
  λ h. (
    ground arith,
    ground arith,
    ground arith,
    ground arith,
    (check_dates_iff r.mfg r.exp today).0 (ground arith),
  ),
  λ (w, low, le, batch, dates).
      let fit = (check_dates_iff r.mfg r.exp today).1 dates in ground arith,
)

abbrev covered : OrderedLine → Bool
covered l = leb_ℤ l.qty (net_received l.arrived)
