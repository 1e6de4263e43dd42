-- ===== src/Purchasing/Approval.antt =====
-- Decisions on a stock request and on a requisition: packages/domain/src/approval.ts.
pub mod Lines
use rch.Prelude.{
  ℕ, suc, ◌+◌, ◌≡◌, Bool, Option, none, some, List, [], ◌∷◌, every, any, get_elem?, if◌then◌else◌,
  ℤ, pos, ◌-ℤ◌, ◌==ℤ◌, ltb_ℤ, min_ℤ, max_ℤ, round3, sum_of, true, false, ◌&&◌, ◌||◌,
}
use rch.Workflow.Status.{ReqStatus, PrqStatus}

-- Item keys are only compared, so they are naturals.
pub record AskedLine : Type 0 where
  pub it : ℕ
  pub qty : ℤ

pub record ApprovalLine : Type 0 where
  pub it : ℕ
  pub qty : ℤ
  pub appr : ℤ
  pub short : ℤ

unfoldable pub approved_status : List ApprovalLine → ReqStatus
approved_status lines =
    if every (λ l. l.appr ==ℤ l.qty) lines
    then ReqStatus.manager_approved
    else ReqStatus.partially_approved

unfoldable pub prq_status : List ApprovalLine → PrqStatus
prq_status lines =
    if every (λ l. l.appr ==ℤ pos 0) lines
    then PrqStatus.declined
    else if every (λ l. l.appr ==ℤ l.qty) lines
    then PrqStatus.approved
    else PrqStatus.partially_approved

-- `Number.isFinite(appr[i]) ? appr[i] : 0`: a place past the end of the list reads as 0.
abbrev or_zero : Option ℤ → ℤ
or_zero none = pos 0
or_zero (some q) = q

abbrev pub asked : List ℤ → ℕ → ℤ
asked appr i = or_zero (get_elem? appr i)

abbrev pub decided : AskedLine → ℤ → ApprovalLine
decided l ok = record { it = l.it; qty = l.qty; appr = ok; short = round3 (l.qty -ℤ ok) }

-- The two `map`s, from place `i` on.
unfoldable pub plan_prq_lines : List ℤ → ℕ → List AskedLine → List ApprovalLine
plan_prq_lines appr i [] = []
plan_prq_lines appr i (l ∷ ls) =
    decided l (round3 (max_ℤ (pos 0) (min_ℤ l.qty (asked appr i)))) ∷ plan_prq_lines appr (i + 1) ls

unfoldable pub plan_prq_approval : List AskedLine → List ℤ → List ApprovalLine × PrqStatus
plan_prq_approval lines appr = let out = plan_prq_lines appr 0 lines in (out, prq_status out)

unfoldable pub plan_lines : List ℤ → (ℕ → ℕ → ℤ) → ℕ → List AskedLine → List ApprovalLine
plan_lines appr free_for i [] = []
plan_lines appr free_for i (l ∷ ls) =
    decided l (max_ℤ (pos 0) (round3 (min_ℤ (min_ℤ l.qty (asked appr i)) (free_for l.it i))))
    ∷ plan_lines appr free_for (i + 1) ls

unfoldable pub trimmed_from : List ℤ → ℕ → List ApprovalLine → Bool
trimmed_from appr i [] = false
trimmed_from appr i (l ∷ ls) =
    ltb_ℤ l.appr (min_ℤ l.qty (asked appr i)) || trimmed_from appr (i + 1) ls

pub record ApprovalPlan : Type 0 where
  pub lines : List ApprovalLine
  pub st : ReqStatus
  pub trimmed : Bool

unfoldable pub plan_approval : List AskedLine → List ℤ → (ℕ → ℕ → ℤ) → ApprovalPlan
plan_approval lines appr free_for =
    let out = plan_lines appr free_for 0 lines in
    record {
      lines = out;
      st = if sum_of (λ l. l.appr) out ==ℤ pos 0 then ReqStatus.rejected else approved_status out;
      trimmed = trimmed_from appr 0 out;
    }
