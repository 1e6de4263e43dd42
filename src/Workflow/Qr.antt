-- ===== src/Workflow/Qr.antt =====
-- The path a QR order walks: packages/domain/src/qr.ts.
use rch.Prelude.{
  ℕ, suc, zero, ◌+◌, ◌≡◌, ◌≢◌, ◌↔◌, refl, ◌⊎◌, Bool, true, false, Option, none, some, List, [], ◌∷◌,
  arith, ◌==◌, if◌then◌else◌, length, get_elem?,
}
use rch.Workflow.Table.{Reach, can_transition}
use rch.Workflow.Status.{
  QrOrderStatus, awaiting_payment, expired, paid, preparing, ready, out_for_delivery, collected,
  delivered, refunded, voided, qr_order_coded, qr_order_code,
}
use rch.Workflow.Tables.{qr_order_transitions}
use rch.Workflow.Walks.{Reach_induction, Reach-through, Passed}

pub data QrMode : Type 0 where
  pickup deliver : QrMode

-- `STEPS`
abbrev pub steps : QrMode → List QrOrderStatus
steps pickup = paid ∷ preparing ∷ ready ∷ collected ∷ []
steps deliver = paid ∷ preparing ∷ out_for_delivery ∷ delivered ∷ []

unfoldable pub qr_steps_for : QrMode → List QrOrderStatus
qr_steps_for mode = steps mode

-- `path.indexOf(status)`, with `none` for -1.
abbrev pub index_of : List QrOrderStatus → QrOrderStatus → Option ℕ
index_of [] s = none
index_of (x ∷ xs) s =
    if qr_order_code x == qr_order_code s
    then some 0
    else elim (index_of xs s) [ none ↦ none | some i ↦ some (suc i) ]

unfoldable pub next_qr_step : QrMode → QrOrderStatus → Option QrOrderStatus
next_qr_step mode status =
    let path = steps mode in
    elim (index_of path status) [
      | none ↦ none
      | some i ↦ if i + 1 == length path then none else get_elem? path (suc i)
    ]

-- The order after some steps of the counter.
unfoldable pub walk : QrMode → ℕ → Option QrOrderStatus → Option QrOrderStatus
walk mode zero s = s
walk mode (suc n) none = none
walk mode (suc n) (some s) = walk mode n (next_qr_step mode s)

abbrev pub one_on : Option ℕ → Option ℕ
one_on none = none
one_on (some i) = some (suc i)

-- The counter's step is always a move of the table, and it is the next place on the path of the
-- code's mode and no other; there is none exactly where the order is off that path or at its end.
pub next_qr_step_legal :
    (mode : QrMode) (a b : QrOrderStatus)
    → ((next_qr_step mode a ≡ some b) ↔ (
        (can_transition qr_order_transitions a b ≡ true)
        × (index_of (qr_steps_for mode) a ≢ none)
        × (index_of (qr_steps_for mode) b ≡ one_on (index_of (qr_steps_for mode) a))))
      × ((next_qr_step mode a ≡ none) ↔ (
          (index_of (qr_steps_for mode) a ≡ none)
          ⊎ (one_on (index_of (qr_steps_for mode) a) ≡ some (length (qr_steps_for mode)))))
unfolding next_qr_step can_transition qr_order_transitions qr_steps_for
next_qr_step_legal pickup a b =
    ((λ h. ground arith, λ h. ground arith), (λ h. ground arith, λ h. ground arith))
next_qr_step_legal deliver a b =
    ((λ h. ground arith, λ h. ground arith), (λ h. ground arith, λ h. ground arith))

-- From its payment an order takes three steps of the counter, to `Collected` on a pickup code and
-- to `Delivered` on a delivery code, and no fourth.
pub three_steps :
    (mode : QrMode)
    → let last : QrOrderStatus = elim mode [ pickup ↦ collected | deliver ↦ delivered ] in
      (walk mode 3 (some paid) ≡ some last) × (walk mode 4 (some paid) ≡ none)
unfolding walk next_qr_step
three_steps pickup = (refl, refl)
three_steps deliver = (refl, refl)

-- Before the payment is captured.
abbrev pub is_unpaid : QrOrderStatus → Bool
is_unpaid awaiting_payment = true
is_unpaid expired = true
is_unpaid refunded = true
is_unpaid s = false

abbrev pub is_paid : QrOrderStatus → Bool
is_paid s = qr_order_code s == qr_order_code paid

leave_unpaid :
    (b c : QrOrderStatus)
    → is_unpaid b ≡ true
    → can_transition qr_order_transitions b c ≡ true
    → (is_unpaid c ≡ true) ⊎ (is_paid c ≡ true)
unfolding can_transition qr_order_transitions
leave_unpaid b c e h = ground arith

-- An order that is being prepared, is out, handed over or voided has been paid on the way there.
pub served_was_paid :
    {b : QrOrderStatus}
    → Reach qr_order_transitions awaiting_payment b
    → is_unpaid b ≡ false
    → Passed qr_order_transitions is_paid awaiting_payment b
served_was_paid r h = Reach-through qr_order_transitions is_unpaid is_paid leave_unpaid r refl h

stay_paid :
    (b c : QrOrderStatus)
    → is_unpaid b ≡ false
    → can_transition qr_order_transitions b c ≡ true
    → is_unpaid c ≡ false
unfolding can_transition qr_order_transitions
stay_paid b c e h = ground arith

-- A paid order never expires and is never refunded short of a void, and a voided or refunded order
-- stays as it is.
pub paid_is_kept :
    ((b : QrOrderStatus) → Reach qr_order_transitions paid b → is_unpaid b ≡ false)
    × ((b : QrOrderStatus) → Reach qr_order_transitions voided b → b ≡ voided)
    × ((b : QrOrderStatus) → Reach qr_order_transitions refunded b → b ≡ refunded)
unfolding can_transition qr_order_transitions
paid_is_kept = (
  λ b r. Reach_induction qr_order_transitions (λ b. is_unpaid b ≡ false) stay_paid r refl,
  λ b r. Reach_induction qr_order_transitions (λ b. b ≡ voided) (ground arith) r refl,
  λ b r. Reach_induction qr_order_transitions (λ b. b ≡ refunded) (ground arith) r refl,
)
