-- ===== src/Till/Sends.antt =====
-- What the queue of refunds keeps, whatever is done with it: apps/api/src/lib/refunds.ts.
use rch.Prelude.{
  All, filter, ℕ, ◌≡◌, refl, sym, ap, ◌∙◌, inl, inr, Bool, true, false, Option, some, List, [], ◌∷◌,
  if◌then◌else◌, Bool-cases, ℤ, ok, require, ok_inj, >>=-eq-ok, guard-eq-ok, require-eq-ok,
}
use mathlib.Core.Bool.{false≢true}
use rch.Workflow.Status.{RefundStatus, refund_coded}
use rch.Workflow.Table.{can_transition}
use rch.Workflow.Tables.{refund_transitions}
use rch.Till.{Refund, RefundReason}
use rch.Till.Void.{queue_refund}
use rch.Till.Refunds.{
  is_refund, id_of, find_refund, update_refund, RefundPatch, stamped, move_refund, claimed,
  in_order, first_of, is_due, claim_all, claim_due_refunds, Deferral, is_given_up, failed_for_good,
  put_off, deferred_row, defer_refund,
}
use rch.Till.Queue.{find-update, find-append, same_row}
use rch.Till.Due.{HaveOwnIds, processed_only, handed-pending}

-- One write on the queue that goes through, and a sequence of them.
pub data Handled (rows : List Refund) : List Refund → Type 0 where
  owed :
      (order payment : ℕ) (amount : ℤ) (reason : RefundReason) (num : Option ℕ) (at : ℕ)
      → Handled rows (queue_refund order payment amount reason num at rows)
  moved :
      (o n : ℕ) (to : RefundStatus) (p : RefundPatch) {after : List Refund}
      → move_refund (o, n) to p rows ≡ ok after
      → Handled rows after
  taken_up :
      (before : ℕ × ℕ → ℕ × ℕ → Bool) (now limit : ℕ)
      → Handled rows (claim_due_refunds before now limit rows).1
  deferred :
      (o n : ℕ) (e : Deferral) {after : List Refund}
      → defer_refund (o, n) e rows ≡ ok after
      → Handled rows after

pub data AllHandled : List Refund → List Refund → Type 0 where
  untouched : (rows : List Refund) → AllHandled rows rows
  and_then : (a b c : List Refund) → AllHandled a b → Handled b c → AllHandled a c

module _ (o n : ℕ) where
  -- What is processed, for an amount and at an instant.
  abbrev pub IsPaidBack : List Refund → ℤ → Option ℕ → Type 0
  IsPaidBack rows amount at =
      (r : Refund) × (find_refund (o, n) rows ≡ some r)
      × (r.status ≡ RefundStatus.processed)
      × (r.amount ≡ amount)
      × (r.processed_at ≡ at)

  claimed-keeps :
      (now : ℕ) (due rows : List Refund) (amount : ℤ) (at : Option ℕ)
      → IsPaidBack rows amount at
      → IsPaidBack (claim_all now due rows) amount at
  unfolding claimed
  claimed-keeps now [] rows amount at h = h
  claimed-keeps now (d ∷ due) rows amount at (r, found, st, am, when) =
      let after = find-update o n d.qr_order d.number (claimed now) rows (λ x. refl) found in
      claimed-keeps now due (update_refund (id_of d) (claimed now) rows) amount at
        (elim (Bool-cases (is_refund (id_of d) r)) [
          | inl w ↦ (
            claimed now r,
            after ∙ ap (λ b. some (if b then claimed now r else r)) w,
            st,
            am,
            when,
          )
          | inr w ↦ (r, after ∙ ap (λ b. some (if b then claimed now r else r)) w, st, am, when)
        ])

  -- A write on another row, and a refund of that name is the one that is found.
  other_row :
      (o' n' : ℕ) (f : Refund → Refund) (rows : List Refund) (amount : ℤ) (at : Option ℕ)
      → ((x : Refund) → is_refund (o, n) (f x) ≡ is_refund (o, n) x)
      → (h : IsPaidBack rows amount at) → is_refund (o', n') h.0 ≡ false
      → IsPaidBack (update_refund (o', n') f rows) amount at
  other_row o' n' f rows amount at keeps (r, found, st, am, when) other = (
    r,
    find-update o n o' n' f rows keeps found ∙ ap (λ b. some (if b then f r else r)) other,
    st,
    am,
    when,
  )

  stuck :
      (st to : RefundStatus)
      → st ≡ RefundStatus.processed
      → can_transition refund_transitions st to ≡ false
  unfolding can_transition refund_transitions
  stuck st to e = rw e refl

  stamped_named :
      (to : RefundStatus) (p : RefundPatch) (x : Refund)
      → is_refund (o, n) (stamped to p x) ≡ is_refund (o, n) x
  unfolding stamped
  stamped_named RefundStatus.pending p x = refl
  stamped_named RefundStatus.sent p x = refl
  stamped_named RefundStatus.processed p x = refl
  stamped_named RefundStatus.failed p x = refl

  moved-keeps :
      (o' n' : ℕ) (to : RefundStatus) (p : RefundPatch) (rows : List Refund) (amount : ℤ)
      (at : Option ℕ) {after : List Refund}
      → move_refund (o', n') to p rows ≡ ok after
      → IsPaidBack rows amount at
      → IsPaidBack after amount at
  unfolding move_refund
  moved-keeps o' n' to p rows amount at done (r, found, st, am, when) =
      let (u, there, h1) = >>=-eq-ok (require (find_refund (o', n') rows) _) _ done in
      let (moves, h2) = guard-eq-ok (can_transition refund_transitions u.status to) _ _ h1 in
      elim (Bool-cases (is_refund (o', n') r)) [
        | inl mine ↦
            let same = same_row o n o' n' rows found mine (require-eq-ok _ _ there) in
            let fixed = stuck u.status to (ap (λ v. v.status) (sym same) ∙ st) in
            absurd (false≢true (sym fixed ∙ moves))
        | inr other ↦ rw (← ok_inj h2) (
            other_row o' n' (stamped to p) rows amount at (stamped_named to p)
              (r, found, st, am, when) other)
      ]

  deferred_row-keeps :
      (o' n' : ℕ) (e : Deferral) (u : Refund) (t : Bool) (rows : List Refund) (amount : ℤ)
      (at : Option ℕ) {after : List Refund}
      → find_refund (o', n') rows ≡ some u
      → deferred_row (o', n') e u rows t ≡ ok after
      → IsPaidBack rows amount at
      → IsPaidBack after amount at
  unfolding failed_for_good put_off
  deferred_row-keeps o' n' e u true rows amount at there done (r, found, st, am, when) =
      let (moves, h2) =
        guard-eq-ok (can_transition refund_transitions u.status RefundStatus.failed) _ _ done in
      elim (Bool-cases (is_refund (o', n') r)) [
        | inl mine ↦
            let same = same_row o n o' n' rows found mine there in
            let fixed = stuck u.status RefundStatus.failed (ap (λ v. v.status) (sym same) ∙ st) in
            absurd (false≢true (sym fixed ∙ moves))
        | inr other ↦ rw (← ok_inj h2) (
            other_row o' n' (failed_for_good e) rows amount at (λ x. refl) (r, found, st, am, when)
              other)
      ]
  deferred_row-keeps o' n' e u false rows amount at there done (r, found, st, am, when) =
      let after = find-update o n o' n' (put_off e) rows (λ x. refl) found in
      rw (← ok_inj done) (elim (Bool-cases (is_refund (o', n') r)) [
        | inl w ↦
            (put_off e r, after ∙ ap (λ b. some (if b then put_off e r else r)) w, st, am, when)
        | inr w ↦ (r, after ∙ ap (λ b. some (if b then put_off e r else r)) w, st, am, when)
      ])

  Handled-keeps :
      {rows after : List Refund} (amount : ℤ) (at : Option ℕ)
      → Handled rows after
      → IsPaidBack rows amount at
      → IsPaidBack after amount at
  unfolding claim_due_refunds defer_refund
  Handled-keeps {rows} amount at (owed order payment sum reason num made) (r, found, st, am, when) =
      (r, find-append o n rows _ r found, st, am, when)
  Handled-keeps {rows} amount at (moved o' n' to p done) h =
      moved-keeps o' n' to p rows amount at done h
  Handled-keeps {rows} amount at (taken_up before now limit) h =
      claimed-keeps now (first_of limit (in_order before (filter (is_due now) rows))) rows amount at
        h
  Handled-keeps {rows} amount at (deferred o' n' e done) h =
      let (u, there, h1) = >>=-eq-ok (require (find_refund (o', n') rows) _) _ done in
      deferred_row-keeps o' n' e u (is_given_up e u) rows amount at (require-eq-ok _ _ there) h1 h

kept :
    (o n : ℕ) {before after : List Refund} (amount : ℤ) (at : Option ℕ)
    → AllHandled before after
    → IsPaidBack o n before amount at
    → IsPaidBack o n after amount at
kept o n amount at (untouched rows) h = h
kept o n amount at (and_then a b c runs last) h =
    Handled-keeps o n amount at last (kept o n amount at runs h)

-- Money that has reached the customer is not sent again. A refund that is processed stays so, for
-- the same amount and at the same instant, whatever is queued, moved, claimed by the worker or put
-- off afterwards. What the worker is handed to send from the queue as it then is, in which no two
-- rows have one id, is pending and is never that refund.
pub processed_is_kept :
    (o n : ℕ) {before after : List Refund} (amount : ℤ) (at : Option ℕ)
    (order : ℕ × ℕ → ℕ × ℕ → Bool) (now limit : ℕ)
    → AllHandled before after
    → IsPaidBack o n before amount at
    → HaveOwnIds after
    → IsPaidBack o n after amount at
      × All
          (λ c. (c.status ≡ RefundStatus.pending) × (is_refund (o, n) c ≡ false))
          (claim_due_refunds order now limit after).0
unfolding claim_due_refunds
processed_is_kept o n {before} {after} amount at order now limit runs paid keyed =
    let (r, found, st, am, when) = kept o n amount at runs paid in
    (
      (r, found, st, am, when),
      handed-pending o n order now limit after (processed_only o n after keyed found st),
    )
