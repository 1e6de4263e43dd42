-- ===== src/Workflow/Tests.antt =====
-- The theorems on statuses at concrete documents.
use rch.Prelude.{◌≡◌, ◌≢◌, ◌↔◌, ◌⊎◌, refl, true, none, some, length}
use rch.Workflow.Status.{
  PoStatus, QrOrderStatus, req_coded, po_coded, pord_coded, qr_order_coded, ticket_coded,
}
use rch.Workflow.Table.{Reach, here, next, can_transition}
use rch.Workflow.Tables.{po_transitions, qr_order_transitions}
use rch.Workflow.Qr.{deliver, next_qr_step, index_of, qr_steps_for, one_on, next_qr_step_legal}
use rch.Workflow.Documents.{has_arrived, arrived_is_kept}

rest_walk : Reach po_transitions PoStatus.partially_received PoStatus.received
unfolding can_transition po_transitions
rest_walk = next here refl

arrived_is_kept_example : has_arrived PoStatus.received ≡ true
arrived_is_kept_example = arrived_is_kept rest_walk refl

-- A delivery order at `Preparing` goes out.
next_qr_step_legal_example :
    ((next_qr_step deliver QrOrderStatus.preparing ≡ some QrOrderStatus.out_for_delivery) ↔ (
      (can_transition qr_order_transitions QrOrderStatus.preparing QrOrderStatus.out_for_delivery
        ≡ true)
      × (index_of (qr_steps_for deliver) QrOrderStatus.preparing ≢ none)
      × (index_of (qr_steps_for deliver) QrOrderStatus.out_for_delivery
          ≡ one_on (index_of (qr_steps_for deliver) QrOrderStatus.preparing))))
    × ((next_qr_step deliver QrOrderStatus.preparing ≡ none) ↔ (
        (index_of (qr_steps_for deliver) QrOrderStatus.preparing ≡ none)
        ⊎ (one_on (index_of (qr_steps_for deliver) QrOrderStatus.preparing)
            ≡ some (length (qr_steps_for deliver)))))
next_qr_step_legal_example =
    next_qr_step_legal deliver QrOrderStatus.preparing QrOrderStatus.out_for_delivery
