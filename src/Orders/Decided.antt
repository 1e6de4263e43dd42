-- ===== src/Orders/Decided.antt =====
-- The writes on requisitions keep the procurement list sound:
-- apps/api/src/modules/requisitions/service.ts.
use rch.Prelude.{
  ℕ, ◌+◌, ◌≡◌, refl, true, false, not, ◌||◌, some, List, [], ◌∷◌, ◌==◌, length, All, All-imp, arith,
  parts_of_eq, sym, ap, ◌∙◌, ℤ, pos, ◌≤ℤ◌, ltb_ℤ, lt_of_ltb, min_ℤ, max_ℤ, int_laws, round3-IsMilli,
  IsMilli, ok, require, ok_inj, >>=-eq-ok, guard-eq-ok, require-eq-ok,
}
use mathlib.Core.Bool.{false≢true}
use rch.Workflow.Status.{PrqStatus, prq_coded}
use rch.Workflow.Table.{can_transition}
use rch.Workflow.Tables.{requisition_transitions}
use rch.Tickets.Sending.{round3_low}
use rch.Purchasing.Approval.{
  AskedLine, ApprovalLine, asked, prq_status, plan_prq_lines, plan_prq_approval,
}
use rch.Orders.{PrqLine, Requisition, Buying, on_line, put}
use rch.Orders.Asking.{
  assert_known_items, is_repeated, all_asked, inserted_lines, create_requisition, all_bought,
  granted_lines, add_direct, as_asked, with_approvals, is_declined, approve, refused_lines, decline,
}
use rch.Orders.Undecided.{is_sent, Untouched, Fits, All_of_nth, put-IsWithin, put-IsUndecided}
use rch.Orders.Bought.{IsBought}

-- A requisition that is written, on a state whose other parts are as they were.
written_asked :
    (id : ℕ) (r : Requisition) (s : Buying)
    → All Fits r.lines
    → (is_sent r.status ≡ true → Untouched r.lines)
    → IsBought s
    → IsBought (record s { requisitions = put id r s.requisitions })
written_asked id r s fits waits h = record {
  within = put-IsWithin id r s.requisitions fits h.within;
  undecided = put-IsUndecided id r s.requisitions waits h.undecided;
  claims = h.claims;
}

inserted-Fits : (ls : List AskedLine) → All Fits (inserted_lines ls)
inserted-Fits [] = tt
inserted-Fits (l ∷ ls) = (((refl, refl), (refl, refl), omega arith), inserted-Fits ls)

inserted-Untouched : (ls : List AskedLine) → Untouched (inserted_lines ls)
inserted-Untouched [] = tt
inserted-Untouched (l ∷ ls) = (refl, inserted-Untouched ls)

granted-Fits : (ls : List AskedLine) → all_asked ls ≡ true → All Fits (granted_lines ls)
granted-Fits [] h = tt
granted-Fits (l ∷ ls) h =
    let some_asked : ltb_ℤ (pos 0) l.qty ≡ true = ground arith in
    let more = lt_of_ltb (pos 0) l.qty some_asked in
    (
      (round3-IsMilli l.qty, (refl, refl), round3_low l.qty (omega (arith, more))),
      granted-Fits ls (ground arith),
    )

pub create_requisition-IsBought :
    (by : ℕ) (lines : List AskedLine) (s : Buying) {t : Buying}
    → IsBought s
    → create_requisition by lines s ≡ ok t
    → IsBought t
unfolding create_requisition
create_requisition-IsBought by lines s h done =
    let (_, _, h1) = >>=-eq-ok (assert_known_items s.master lines) _ done in
    let (_, h2) = guard-eq-ok (all_asked lines) _ _ h1 in
    let (_, h3) = guard-eq-ok (not (is_repeated [] lines)) _ _ h2 in
    let w =
      written_asked s.next_prq (record { status = PrqStatus.sent; lines = inserted_lines lines }) s
        (inserted-Fits lines) (λ _. inserted-Untouched lines) h in
    rw (← ok_inj h3) (record { within = w.within; undecided = w.undecided; claims = w.claims })

pub add_direct-IsBought :
    (by : ℕ) (lines : List AskedLine) (note : List ℕ) (s : Buying) {t : Buying}
    → IsBought s
    → add_direct by lines note s ≡ ok t
    → IsBought t
unfolding add_direct
add_direct-IsBought by lines note s h done =
    let (_, _, h1) = >>=-eq-ok (assert_known_items s.master lines) _ done in
    let (more, h2) = guard-eq-ok (all_asked lines) _ _ h1 in
    let (_, h3) = guard-eq-ok (not (is_repeated [] lines)) _ _ h2 in
    let (_, h4) = guard-eq-ok (all_bought s.master lines) _ _ h3 in
    let (_, h5) = guard-eq-ok (not (length note == 0)) _ _ h4 in
    let w =
      written_asked s.next_prq (record { status = PrqStatus.approved; lines = granted_lines lines })
        s (granted-Fits lines more) (λ e. cc) h in
    rw (← ok_inj h5) (record { within = w.within; undecided = w.undecided; claims = w.claims })

-- An approval is a whole number of thousandths, and not below nothing.
abbrev IsGrant : ApprovalLine → Type 0
IsGrant a = IsMilli a.appr × (pos 0 ≤ℤ a.appr)

plan_prq_lines-grants :
    (appr : List ℤ) (i : ℕ) (ls : List AskedLine) → All IsGrant (plan_prq_lines appr i ls)
unfolding plan_prq_lines
plan_prq_lines-grants appr i [] = tt
plan_prq_lines-grants appr i (l ∷ ls) =
    let top = max_ℤ (pos 0) (min_ℤ l.qty (asked appr i)) in
    let low : pos 0 ≤ℤ top = omega int_laws in
    ((round3-IsMilli top, round3_low top low), plan_prq_lines-grants appr (i + 1) ls)

-- A line that fits and of which nothing is approved.
abbrev Waits : PrqLine → Type 0
Waits x = Fits x × (x.appr ≡ pos 0)

approved-Fits :
    (ls : List PrqLine) (out : List ApprovalLine)
    → All Waits ls
    → All IsGrant out
    → All Fits (with_approvals ls out)
approved-Fits [] out h g = tt
approved-Fits (l ∷ ls) [] h g = All-imp (l ∷ ls) (λ x w. w.0) h
approved-Fits (l ∷ ls) (a ∷ out) (((_, exact, le), none_yet), h) ((ga, low), g) =
    ((ga, exact, omega (int_laws, low, le, parts_of_eq _ _ none_yet)), approved-Fits ls out h g)

refused-Fits : (ls : List PrqLine) → All Waits ls → All Fits (refused_lines ls)
refused-Fits [] h = tt
refused-Fits (l ∷ ls) (((_, exact, le), none_yet), h) =
    (((refl, refl), exact, omega (int_laws, le, parts_of_eq _ _ none_yet)), refused-Fits ls h)

-- Only what waits is decided, and what is decided waits no more.
from_sent :
    (a b : PrqStatus)
    → can_transition requisition_transitions a b ≡ true
    → (is_sent a ≡ true) × (is_sent b ≡ false)
unfolding can_transition requisition_transitions
from_sent PrqStatus.sent PrqStatus.sent h = cc
from_sent PrqStatus.sent PrqStatus.approved h = (refl, refl)
from_sent PrqStatus.sent PrqStatus.partially_approved h = (refl, refl)
from_sent PrqStatus.sent PrqStatus.declined h = (refl, refl)
from_sent PrqStatus.approved b h = cc
from_sent PrqStatus.partially_approved b h = cc
from_sent PrqStatus.declined b h = cc

All-both : (ls : List PrqLine) → All Fits ls → Untouched ls → All Waits ls
All-both [] h w = tt
All-both (l ∷ ls) h w = ((h.0, w.0), All-both ls h.1 w.1)

-- The lines of a requisition that waits.
waiting :
    (s : Buying) (id : ℕ) (r : Requisition)
    → IsBought s
    → s.requisitions id ≡ some r
    → is_sent r.status ≡ true
    → All Waits r.lines
waiting s id r h row sent =
    All-both r.lines (All_of_nth Fits r.lines (λ n x e. h.within id n x (ap (on_line n) row ∙ e)))
      (h.undecided id r row sent)

pub approve-IsBought :
    (by id : ℕ) (appr : List ℤ) (note : List ℕ) (s : Buying) {t : Buying}
    → IsBought s
    → approve by id appr note s ≡ ok t
    → IsBought t
unfolding approve plan_prq_approval
approve-IsBought by id appr note s h done =
    let (r, at, h1) = >>=-eq-ok (require (s.requisitions id) _) _ done in
    let (_, h2) = guard-eq-ok (length appr == length r.lines) _ _ h1 in
    let out = plan_prq_lines appr 0 (as_asked r.lines) in
    let st = prq_status out in
    let (_, h3) = guard-eq-ok (not (is_declined st) || not (length note == 0)) _ _ h2 in
    let (moves, h4) = guard-eq-ok (can_transition requisition_transitions r.status st) _ _ h3 in
    let (sent, over) = from_sent r.status st moves in
    let w =
      written_asked id (record { status = st; lines = with_approvals r.lines out }) s
        (approved-Fits r.lines out (waiting s id r h (require-eq-ok _ _ at) sent)
          (plan_prq_lines-grants appr 0 (as_asked r.lines)))
        (λ e. absurd (false≢true (sym over ∙ e))) h in
    rw (← ok_inj h4) (record { within = w.within; undecided = w.undecided; claims = w.claims })

pub decline-IsBought :
    (by id : ℕ) (note : List ℕ) (s : Buying) {t : Buying}
    → IsBought s
    → decline by id note s ≡ ok t
    → IsBought t
unfolding decline
decline-IsBought by id note s h done =
    let (r, at, h1) = >>=-eq-ok (require (s.requisitions id) _) _ done in
    let (_, h2) = guard-eq-ok (not (length note == 0)) _ _ h1 in
    let (moves, h3) =
      guard-eq-ok (can_transition requisition_transitions r.status PrqStatus.declined) _ _ h2 in
    let (sent, _) = from_sent r.status PrqStatus.declined moves in
    let w =
      written_asked id (record { status = PrqStatus.declined; lines = refused_lines r.lines }) s
        (refused-Fits r.lines (waiting s id r h (require-eq-ok _ _ at) sent)) (λ e. cc) h in
    rw (← ok_inj h3) (record { within = w.within; undecided = w.undecided; claims = w.claims })
