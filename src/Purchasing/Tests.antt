-- ===== src/Purchasing/Tests.antt =====
-- The theorems on purchasing at concrete documents; `one` is one unit.
use rch.Prelude.{
  ℕ, suc, zero, ◌≡◌, ◌↔◌, refl, true, false, none, some, List, [], ◌∷◌, arith, All, ◌*◌, one, ℤ,
  pos, ◌-ℤ◌, min_ℤ, max_ℤ, IsMilli, EqParts,
}
use rch.Workflow.Table.{can_transition}
use rch.Workflow.Status.{ReqStatus, req_coded, prq_coded, po_coded, ordered}
use rch.Workflow.Tables.{request_transitions}
use rch.Purchasing.Apportion.{apportion, Shares, total, apportion_lem}
use rch.Purchasing.Receipt.{ReceiptCheckLine, ReceiptCheckInput, check_receipt_line, OrderedLine}
use rch.Purchasing.Receipt.Accepting.{Accepts, check_receipt_line_iff}
use rch.Purchasing.Claims.{ClaimSrc, release_claim, fold_claims}
use rch.Purchasing.Claims.Releasing.{claimed, given, IsPart, release_claim_lem}
use rch.Purchasing.Claims.Folding.{Ascending, claim_on, fold_claims_lem}
use rch.Purchasing.Approval.{AskedLine, asked, plan_approval}
use rch.Purchasing.Approval.Lines.{AllDecided, Exact, plan_approval_lem}

-- Five received over sources of three and four.
apportion_lem_example :
    Shares
      (apportion (pos (5 * one)) (pos (3 * one) ∷ pos (4 * one) ∷ []))
      (pos (3 * one) ∷ pos (4 * one) ∷ [])
    × (total (apportion (pos (5 * one)) (pos (3 * one) ∷ pos (4 * one) ∷ []))
        ≡ min_ℤ (max_ℤ (pos (5 * one)) (pos 0)) (total (pos (3 * one) ∷ pos (4 * one) ∷ [])))
apportion_lem_example =
    apportion_lem (pos (5 * one)) (pos (3 * one) ∷ pos (4 * one) ∷ []) (refl, refl)
      (((refl, refl), omega arith), (((refl, refl), omega arith), tt))

abbrev order_line : ReceiptCheckLine
order_line = record { ordered = pos (10 * one); received_before = pos 0 }

abbrev delivery : ReceiptCheckInput
delivery = record {
  recv = pos (10 * one);
  rejected = pos one;
  batch_blank = false;
  mfg = some 10;
  exp = some 400;
}

check_receipt_line_iff_example :
    (check_receipt_line order_line delivery 30 ≡ none) ↔ Accepts order_line delivery 30
check_receipt_line_iff_example = check_receipt_line_iff order_line delivery 30

abbrev half_in : List OrderedLine
half_in =
    record { qty = pos (10 * one); arrived = record { recv = pos (10 * one); rejected = pos one } }
    ∷ []

abbrev claims : List ClaimSrc
claims =
    record { prq = 2; line = 0; qty = pos (3 * one) }
    ∷ record { prq = 1; line = 1; qty = pos (4 * one) }
    ∷ record { prq = 2; line = 0; qty = pos one }
    ∷ []

release_claim_lem_example :
    (claimed (release_claim claims (pos (2 * one))).released ≡ given claims (pos (2 * one)))
    × (claimed (release_claim claims (pos (2 * one))).left
        ≡ claimed claims -ℤ given claims (pos (2 * one)))
    × All IsPart (release_claim claims (pos (2 * one))).released
    × All IsPart (release_claim claims (pos (2 * one))).left
release_claim_lem_example =
    release_claim_lem claims (pos (2 * one)) (refl, refl)
      (
        ((refl, refl), omega arith),
        (((refl, refl), omega arith), (((refl, refl), omega arith), tt)),
      )

fold_claims_lem_example :
    Ascending (fold_claims claims)
    × ((prq line : ℕ) → claim_on prq line (fold_claims claims) ≡ claim_on prq line claims)
fold_claims_lem_example = fold_claims_lem claims ((refl, refl), ((refl, refl), ((refl, refl), tt)))

abbrev wanted : List AskedLine
wanted = record { it = 1; qty = pos (5 * one) } ∷ []

abbrev typed : List ℤ
typed = pos (4 * one) ∷ []

typed-IsMilli : (i : ℕ) → IsMilli (asked typed i)
typed-IsMilli zero = (refl, refl)
typed-IsMilli (suc i) = (refl, refl)

wanted-Exact : Exact typed wanted
wanted-Exact = (typed-IsMilli, ((refl, refl), tt))

abbrev free : ℤ → ℕ → ℕ → ℤ
free q it j = q

plan_approval_lem_example :
    AllDecided
      (λ j l. min_ℤ (asked typed j) (free (pos (2 * one)) l.it j))
      0
      wanted
      (plan_approval wanted typed (free (pos (2 * one)))).lines
    × (can_transition request_transitions ReqStatus.request_sent
          (plan_approval wanted typed (free (pos (2 * one)))).st
        ≡ true)
    × (((plan_approval wanted typed (free (pos (2 * one)))).st ≡ ReqStatus.rejected)
        ↔ All
            (λ o. EqParts o.appr (pos 0))
            (plan_approval wanted typed (free (pos (2 * one)))).lines)
plan_approval_lem_example =
    plan_approval_lem wanted typed (free (pos (2 * one))) wanted-Exact (λ it j. (refl, refl))
