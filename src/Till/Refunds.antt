-- ===== src/Till/Refunds.antt =====
-- The refunds that are owed to customers of a QR order, and the worker's queue of them:
-- apps/api/src/lib/refunds.ts.
use rch.Prelude.{
  ℕ, zero, suc, ◌+◌, Bool, true, false, ◌&&◌, ◌||◌, Option, none, some, List, [], ◌∷◌, ◌==◌, leb,
  ltb, if◌then◌else◌, filter, map, length, get_elem?, Result, ok, guard, require, ◌>>=◌, ◌>>◌,
}
use rch.Workflow.Status.{RefundStatus, refund_coded}
use rch.Workflow.Table.{can_transition}
use rch.Workflow.Tables.{refund_transitions}
use rch.Till.{Refund}

-- The order's id and the number behind it.
abbrev pub is_refund : ℕ × ℕ → Refund → Bool
is_refund (order, number) r = (r.qr_order == order) && (r.number == number)

abbrev pub id_of : Refund → ℕ × ℕ
id_of r = (r.qr_order, r.number)

-- `refundForUpdate`
abbrev pub find_refund : ℕ × ℕ → List Refund → Option Refund
find_refund id [] = none
find_refund id (r ∷ rs) = let rest = find_refund id rs in if is_refund id r then some r else rest

abbrev pub update_refund : ℕ × ℕ → (Refund → Refund) → List Refund → List Refund
update_refund id f [] = []
update_refund id f (r ∷ rs) =
    let rest = update_refund id f rs in if is_refund id r then f r ∷ rest else r ∷ rest

pub data RefundRefusal : Type 0 where
  no_refund refund_moved : RefundRefusal

-- What a move settles besides the status: the gateway's id of the refund, its last answer, and the
-- instant.
pub record RefundPatch : Type 0 where
  pub rzp_refund : Option ℕ
  pub error : Option (List ℕ)
  pub at : ℕ

abbrev pub or_kept {ℓ} : {A : Type ℓ} → Option A → Option A → Option A
or_kept none old = old
or_kept (some a) old = some a

-- The columns that a move writes.
unfoldable pub stamped : RefundStatus → RefundPatch → Refund → Refund
stamped RefundStatus.pending p r = record r {
  status = RefundStatus.pending;
  attempts = 0;
  next_attempt_at = p.at;
  last_error = none;
  rzp_refund = none;
}
stamped RefundStatus.sent p r = record r {
  status = RefundStatus.sent;
  rzp_refund = or_kept p.rzp_refund r.rzp_refund;
}
stamped RefundStatus.processed p r = record r {
  status = RefundStatus.processed;
  rzp_refund = or_kept p.rzp_refund r.rzp_refund;
  processed_at = some p.at;
}
stamped RefundStatus.failed p r = record r {
  status = RefundStatus.failed;
  rzp_refund = or_kept p.rzp_refund r.rzp_refund;
  last_error = or_kept p.error r.last_error;
}

unfoldable pub move_refund :
    ℕ × ℕ → RefundStatus → RefundPatch → List Refund → Result RefundRefusal (List Refund)
move_refund id to p rows = do
  r ← require (find_refund id rows) no_refund
  guard (can_transition refund_transitions r.status to) refund_moved
  ok (update_refund id (stamped to p) rows)

-- `REFUND_BACKOFF_MS`: a minute, five, a quarter of an hour, an hour, six hours.
abbrev pub refund_backoff : List ℕ
refund_backoff = 60_000 ∷ 300_000 ∷ 900_000 ∷ 3_600_000 ∷ 21_600_000 ∷ []

abbrev pub refund_max_attempts : ℕ
refund_max_attempts = length refund_backoff + 1

-- What follows the attempt of that number, which is not 0; the last wait is kept from then on.
unfoldable pub backoff_after : ℕ → ℕ
backoff_after zero = 0
backoff_after (suc n) = elim (get_elem? refund_backoff n) [ none ↦ 21_600_000 | some wait ↦ wait ]

-- The order in which refunds come due; `before` is the order of the ids.
abbrev pub comes_before : (ℕ × ℕ → ℕ × ℕ → Bool) → Refund → Refund → Bool
comes_before before a b =
    ltb a.next_attempt_at b.next_attempt_at
    || ((a.next_attempt_at == b.next_attempt_at) && before (id_of a) (id_of b))

abbrev pub queued : (ℕ × ℕ → ℕ × ℕ → Bool) → Refund → List Refund → List Refund
queued before r [] = r ∷ []
queued before r (x ∷ xs) =
    let rest = queued before r xs in if comes_before before r x then r ∷ x ∷ xs else x ∷ rest

abbrev pub in_order : (ℕ × ℕ → ℕ × ℕ → Bool) → List Refund → List Refund
in_order before [] = []
in_order before (r ∷ rs) = queued before r (in_order before rs)

abbrev pub first_of : ℕ → List Refund → List Refund
first_of n [] = []
first_of zero (r ∷ rs) = []
first_of (suc n) (r ∷ rs) = r ∷ first_of n rs

abbrev pub is_pending : RefundStatus → Bool
is_pending RefundStatus.pending = true
is_pending st = false

abbrev pub is_due : ℕ → Refund → Bool
is_due now r = is_pending r.status && leb r.next_attempt_at now

-- The attempt is counted, and the next one put off.
unfoldable pub claimed : ℕ → Refund → Refund
claimed now r = record r {
  attempts = r.attempts + 1;
  next_attempt_at = now + backoff_after (r.attempts + 1);
}

abbrev pub claim_all : ℕ → List Refund → List Refund → List Refund
claim_all now [] rows = rows
claim_all now (r ∷ due) rows = claim_all now due (update_refund (id_of r) (claimed now) rows)

-- What the worker is handed to send, and the rows as they are left.
unfoldable pub claim_due_refunds :
    (ℕ × ℕ → ℕ × ℕ → Bool) → ℕ → ℕ → List Refund → List Refund × List Refund
claim_due_refunds before now limit rows =
    let due = first_of limit (in_order before (filter (is_due now) rows)) in
    (map (claimed now) due, claim_all now due rows)

-- A send that did not go through; `counted` where the claim has counted the attempt.
pub record Deferral : Type 0 where
  pub error : List ℕ
  pub final : Bool
  pub at : ℕ
  pub counted : Bool

abbrev pub attempts_of : Deferral → Refund → ℕ
attempts_of e r = if e.counted then r.attempts else r.attempts + 1

abbrev pub is_given_up : Deferral → Refund → Bool
is_given_up e r = e.final || leb refund_max_attempts (attempts_of e r)

unfoldable pub failed_for_good : Deferral → Refund → Refund
failed_for_good e r = record r {
  status = RefundStatus.failed;
  attempts = attempts_of e r;
  last_error = some e.error;
}

unfoldable pub put_off : Deferral → Refund → Refund
put_off e r = record r {
  attempts = attempts_of e r;
  last_error = some e.error;
  next_attempt_at = if e.counted then r.next_attempt_at else e.at + backoff_after (attempts_of e r);
}

abbrev pub deferred_row :
    ℕ × ℕ → Deferral → Refund → List Refund → Bool → Result RefundRefusal (List Refund)
deferred_row id e r rows true = do
  guard (can_transition refund_transitions r.status RefundStatus.failed) refund_moved
  ok (update_refund id (failed_for_good e) rows)
deferred_row id e r rows false = ok (update_refund id (put_off e) rows)

unfoldable pub defer_refund : ℕ × ℕ → Deferral → List Refund → Result RefundRefusal (List Refund)
defer_refund id e rows = do
  r ← require (find_refund id rows) no_refund
  deferred_row id e r rows (is_given_up e r)
