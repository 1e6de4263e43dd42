-- ===== src/Purchasing/Approval/Lines.antt =====
-- What the decisions of packages/domain/src/approval.ts promise, line by line and as a whole.
use mathlib.Core.Bool.{false≢true}
use rch.Prelude.{
  sym, ◌∙◌, ◌↔◌, every-All, All-every, le_of_not_ltb, ℕ, ◌+◌, ◌≡◌, refl, Bool, true, false, inl,
  inr, List, [], ◌∷◌, arith, All, every, Bool-cases, ℤ, pos, ◌-ℤ◌, ◌≤ℤ◌, ◌==ℤ◌, EqParts,
  parts_of_eq, min_ℤ, max_ℤ, int_laws, round3_self, IsMilli, sub-IsMilli, min-IsMilli, max-IsMilli,
  sum_of, sum_of_nonneg, All-imp,
}
use rch.Workflow.Table.{can_transition}
use rch.Workflow.Status.{ReqStatus, PrqStatus, req_coded, prq_coded}
use rch.Workflow.Tables.{request_transitions, requisition_transitions}
use rch.Purchasing.Approval.{
  AskedLine, ApprovalLine, asked, plan_prq_lines, plan_prq_approval, plan_lines, plan_approval,
  prq_status, approved_status, trimmed_from,
}

-- A decision for a line: not below zero, not above what was asked for or the bound, and the rest
-- is short.
abbrev pub IsDecided : ℤ → AskedLine → ApprovalLine → Type 0
IsDecided bound l out =
    (out.it ≡ l.it)
    × (out.qty ≡ l.qty)
    × (out.appr ≡ max_ℤ (pos 0) (min_ℤ l.qty bound))
    × (out.short ≡ l.qty -ℤ out.appr)

-- Line by line, with the place of each line.
abbrev pub AllDecided : (ℕ → AskedLine → ℤ) → ℕ → List AskedLine → List ApprovalLine → Type 0
AllDecided bound i [] [] = Unit {0}
AllDecided bound i (l ∷ ls) (o ∷ os) = IsDecided (bound i l) l o × AllDecided bound (i + 1) ls os
AllDecided bound i _ _ = ⊥

abbrev pub Exact : List ℤ → List AskedLine → Type 0
Exact appr lines = ((i : ℕ) → IsMilli (asked appr i)) × All (λ l. IsMilli l.qty) lines

plan_prq_lines-AllDecided :
    (appr : List ℤ) (i : ℕ) (ls : List AskedLine)
    → Exact appr ls
    → AllDecided (λ j l. asked appr j) i ls (plan_prq_lines appr i ls)
unfolding plan_prq_lines
plan_prq_lines-AllDecided appr i [] h = tt
plan_prq_lines-AllDecided appr i (l ∷ ls) (ha, (hl, hs)) =
    let ok : ℤ = max_ℤ (pos 0) (min_ℤ l.qty (asked appr i)) in
    let exact : IsMilli ok = max-IsMilli _ _ (refl, refl) (min-IsMilli _ _ hl (ha i)) in
    (
      rw (round3_self ok exact, round3_self (l.qty -ℤ ok) (sub-IsMilli _ _ hl exact))
          (refl, refl, refl, refl),
      plan_prq_lines-AllDecided appr (i + 1) ls (ha, hs),
    )

plan_lines-AllDecided :
    (appr : List ℤ) (free_for : ℕ → ℕ → ℤ) (i : ℕ) (ls : List AskedLine)
    → Exact appr ls
    → ((it j : ℕ) → IsMilli (free_for it j))
    → AllDecided
        (λ j l. min_ℤ (asked appr j) (free_for l.it j))
        i
        ls
        (plan_lines appr free_for i ls)
unfolding plan_lines
plan_lines-AllDecided appr free_for i [] h hf = tt
plan_lines-AllDecided appr free_for i (l ∷ ls) (ha, (hl, hs)) hf =
    let bound : ℤ = min_ℤ (min_ℤ l.qty (asked appr i)) (free_for l.it i) in
    let exact : IsMilli bound = min-IsMilli _ _ (min-IsMilli _ _ hl (ha i)) (hf l.it i) in
    let ok : ℤ = max_ℤ (pos 0) bound in
    (
      rw
          (
            round3_self bound exact,
            round3_self (l.qty -ℤ ok) (sub-IsMilli _ _ hl (max-IsMilli _ _ (refl, refl) exact)),
          )
          (refl, refl, omega int_laws, refl),
      plan_lines-AllDecided appr free_for (i + 1) ls (ha, hs) hf,
    )

abbrev is_nought : ApprovalLine → Bool
is_nought l = l.appr ==ℤ pos 0

AllDecided-nonneg :
    (bound : ℕ → AskedLine → ℤ) (i : ℕ) (ls : List AskedLine) (os : List ApprovalLine)
    → AllDecided bound i ls os
    → All (λ o. pos 0 ≤ℤ o.appr) os
AllDecided-nonneg bound i [] [] h = tt
AllDecided-nonneg bound i [] (o ∷ os) h = absurd h
AllDecided-nonneg bound i (l ∷ ls) [] h = absurd h
AllDecided-nonneg bound i (l ∷ ls) (o ∷ os) (d, h) =
    (omega (int_laws, parts_of_eq _ _ d.2), AllDecided-nonneg bound (i + 1) ls os h)

nought_of_sum :
    (os : List ApprovalLine)
    → All (λ o. pos 0 ≤ℤ o.appr) os
    → EqParts (sum_of (λ o. o.appr) os) (pos 0)
    → All (λ o. EqParts o.appr (pos 0)) os
nought_of_sum [] h e = tt
nought_of_sum (o ∷ os) h e =
    let rest = sum_of_nonneg (λ o. o.appr) os h.1 in
    (omega (int_laws, rest), nought_of_sum os h.1 (omega (int_laws, rest, h.0)))

sum_of_nought :
    (os : List ApprovalLine)
    → All (λ o. EqParts o.appr (pos 0)) os
    → EqParts (sum_of (λ o. o.appr) os) (pos 0)
sum_of_nought [] h = refl
sum_of_nought (o ∷ os) h = omega (int_laws, h.0, sum_of_nought os h.1)

==ℤ_iff : (a b : ℤ) → ((a ==ℤ b) ≡ true) ↔ EqParts a b
==ℤ_iff a b = (λ h. ground arith, λ h. ground arith)

-- The manager's decision on a request that was sent: each line is approved for what was asked,
-- what was typed or what is free, whichever is least and not below zero, the rest is short, the
-- status is a listed move from `Request sent`, and it is `Rejected` exactly where no line is
-- approved for anything. All quantities are of whole thousandths.
pub plan_approval_lem :
    (lines : List AskedLine) (appr : List ℤ) (free_for : ℕ → ℕ → ℤ)
    → Exact appr lines
    → ((it j : ℕ) → IsMilli (free_for it j))
    → let plan = plan_approval lines appr free_for in
      AllDecided (λ j l. min_ℤ (asked appr j) (free_for l.it j)) 0 lines plan.lines
      × (can_transition request_transitions ReqStatus.request_sent plan.st ≡ true)
      × ((plan.st ≡ ReqStatus.rejected) ↔ All (λ o. EqParts o.appr (pos 0)) plan.lines)
unfolding plan_approval approved_status can_transition request_transitions
plan_approval_lem lines appr free_for h hf =
    let out = plan_lines appr free_for 0 lines in
    let decided_all = plan_lines-AllDecided appr free_for 0 lines h hf in
    let low = AllDecided-nonneg _ 0 lines out decided_all in
    let total : ℤ = sum_of (λ o. o.appr) out in
    elim (Bool-cases (total ==ℤ pos 0)) [
      | inl e ↦
          rw e (
            decided_all,
            refl,
            (λ _. nought_of_sum out low ((==ℤ_iff total (pos 0)).0 e), λ _. refl),
          )
      | inr e ↦ rw e (
        decided_all,
        ground arith,
        (
          λ r. ground arith,
          λ z. absurd (false≢true (sym e ∙ (==ℤ_iff total (pos 0)).1 (sum_of_nought out z))),
        ),
      )
    ]

-- The buyer's decision on a requisition: each line is approved for what was asked or what was
-- typed, whichever is less and not below zero, with nothing netted against the shelf, the status
-- is a listed move from `Sent`, and it is `Declined` exactly where no line is approved for anything.
pub plan_prq_approval_lem :
    (lines : List AskedLine) (appr : List ℤ)
    → Exact appr lines
    → let (out, st) = plan_prq_approval lines appr in
      AllDecided (λ j l. asked appr j) 0 lines out
      × (can_transition requisition_transitions PrqStatus.sent st ≡ true)
      × ((st ≡ PrqStatus.declined) ↔ All (λ o. EqParts o.appr (pos 0)) out)
unfolding plan_prq_approval prq_status can_transition requisition_transitions
plan_prq_approval_lem lines appr h =
    let out = plan_prq_lines appr 0 lines in
    elim (Bool-cases (every is_nought out)) [
      | inl e ↦ rw e (
        plan_prq_lines-AllDecided appr 0 lines h,
        refl,
        (λ _. All-imp out (λ o. (==ℤ_iff o.appr (pos 0)).0) (every-All is_nought out e), λ _. refl),
      )
      | inr e ↦ rw e (
        plan_prq_lines-AllDecided appr 0 lines h,
        ground arith,
        (
          λ r. ground arith,
          λ z. absurd (
              false≢true (
                sym e ∙ All-every is_nought out (All-imp out (λ o. (==ℤ_iff o.appr (pos 0)).1) z))),
        ),
      )
    ]

untrimmed_from :
    (appr : List ℤ) (free_for : ℕ → ℕ → ℤ) (i : ℕ) (ls : List AskedLine) (os : List ApprovalLine)
    → AllDecided (λ j l. min_ℤ (asked appr j) (free_for l.it j)) i ls os
    → trimmed_from appr i os ≡ false
    → AllDecided (λ j l. asked appr j) i ls os
unfolding trimmed_from
untrimmed_from appr free_for i [] [] h t = tt
untrimmed_from appr free_for i [] (o ∷ os) h t = h
untrimmed_from appr free_for i (l ∷ ls) [] h t = h
untrimmed_from appr free_for i (l ∷ ls) (o ∷ os) (d, h) t =
    let enough = le_of_not_ltb o.appr (min_ℤ o.qty (asked appr i)) (ground arith) in
    let enough' : min_ℤ l.qty (asked appr i) ≤ℤ o.appr = rw d.1 at enough in
    (
      (d.0, d.1, omega (int_laws, parts_of_eq _ _ d.2, enough'), d.3),
      untrimmed_from appr free_for (i + 1) ls os h (ground arith),
    )

-- A plan that is not marked as trimmed approves every line for what the manager typed, as far as
-- that was asked for: the store has cut nothing.
pub untrimmed_is_typed :
    (lines : List AskedLine) (appr : List ℤ) (free_for : ℕ → ℕ → ℤ)
    → Exact appr lines
    → ((it j : ℕ) → IsMilli (free_for it j))
    → (plan_approval lines appr free_for).trimmed ≡ false
    → AllDecided (λ j l. asked appr j) 0 lines (plan_approval lines appr free_for).lines
unfolding plan_approval
untrimmed_is_typed lines appr free_for h hf t =
    untrimmed_from appr free_for 0 lines _ (plan_lines-AllDecided appr free_for 0 lines h hf) t
