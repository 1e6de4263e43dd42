-- ===== src/Tickets/Code.antt =====
-- The code that a ticket is collected with: `handover` of apps/api/src/modules/tickets/service.ts.
use rch.Prelude.{
  ℕ, ◌<◌, ◌≡◌, ◌↔◌, refl, ap, Bool, true, false, ◌&&◌, not, some, List, [], ◌∷◌, ◌==◌, ==_iff, ltb,
  ltb→lt, arith, if◌then◌else◌, length, every-All, All-every, All, All-imp, pos, ◌≤ℤ◌, le_of_leb,
  leb_of_le,
}
use rch.Workflow.Status.{TktStatus, tkt_coded}
use rch.Workflow.Table.{can_transition}
use rch.Workflow.Tables.{ticket_transitions}
use rch.Catalog.{or_zero}
use rch.Ledger.{Ledger, post_moves}
use rch.Tickets.{
  Ticket, TicketLine, Store, Outcome, done, counted, refused, TicketRefusal, locked, not_yours,
  wrong_state, no_longer_there,
}
use rch.Tickets.Service.{
  Claims, otp_matches, same_bytes, otp_attempts_max, handover, taken_out, out_moves, none_below,
}

abbrev pub is_done : Outcome → Bool
is_done (done s) = true
is_done (counted s) = false
is_done (refused r) = false

-- What has to hold for stock to leave on the ticket.
abbrev pub MayCollect : Claims → ℕ → List ℕ → Store → Ticket → Type 0
MayCollect claims id typed s t =
    (claims.loc ≡ t.from)
    × (t.st ≡ TktStatus.issued)
    × (t.otp_attempts < otp_attempts_max)
    × (typed ≡ t.otp)
    × All
        (λ l.
          pos 0
          ≤ℤ or_zero
              ((post_moves (out_moves claims id t.from t.lines) s.ledger).balances t.from l.it))
        t.lines

and_iff : (a b : Bool) → ((a && b) ≡ true) ↔ ((a ≡ true) × (b ≡ true))
and_iff true true = (λ h. (refl, refl), λ h. refl)
and_iff true false = (λ h. cc, λ h. h.1)
and_iff false b = (λ h. cc, λ h. h.0)

same_bytes_iff : (as' bs : List ℕ) → (same_bytes as' bs ≡ true) ↔ (as' ≡ bs)
same_bytes_iff [] [] = (λ h. refl, λ h. refl)
same_bytes_iff [] (b ∷ bs) = (λ h. cc, λ h. cc)
same_bytes_iff (a ∷ rest) [] = (λ h. cc, λ h. cc)
same_bytes_iff (a ∷ rest) (b ∷ bs) =
    let ih = same_bytes_iff rest bs in
    (
      λ h.
          let (e, f) = (and_iff (a == b) (same_bytes rest bs)).0 h in
          let heads : a ≡ b = (==_iff a b).0 e in let tails : rest ≡ bs = ih.0 f in cc,
      λ h.
          let heads : a ≡ b = cc in
          let tails : rest ≡ bs = cc in
          (and_iff (a == b) (same_bytes rest bs)).1 ((==_iff a b).1 heads, ih.1 tails),
    )

pub otp_matches_iff : (typed real : List ℕ) → (otp_matches typed real ≡ true) ↔ (typed ≡ real)
unfolding otp_matches
otp_matches_iff typed real = (
  λ h.
      (same_bytes_iff typed real).0
        ((and_iff (length typed == length real) (same_bytes typed real)).0 h).1,
  λ h. (and_iff (length typed == length real) (same_bytes typed real)).1 (
    (==_iff (length typed) (length real)).1 (ap (λ l. length l) h),
    (same_bytes_iff typed real).1 h,
  ),
)

guard_iff :
    (b : Bool) (r : TicketRefusal) (o : Outcome)
    → (is_done (if not b then refused r else o) ≡ true) ↔ ((b ≡ true) × (is_done o ≡ true))
guard_iff true r o = (λ h. (refl, h), λ h. h.1)
guard_iff false r o = (λ h. cc, λ h. cc)

counted_iff :
    (b : Bool) (s' : Store) (o : Outcome)
    → (is_done (if not b then counted s' else o) ≡ true) ↔ ((b ≡ true) × (is_done o ≡ true))
counted_iff true s' o = (λ h. (refl, h), λ h. h.1)
counted_iff false s' o = (λ h. cc, λ h. cc)

pub issued_iff :
    (st : TktStatus)
    → (can_transition ticket_transitions st TktStatus.collected ≡ true) ↔ (st ≡ TktStatus.issued)
unfolding can_transition ticket_transitions
issued_iff TktStatus.issued = (λ h. refl, λ h. refl)
issued_iff TktStatus.collected = (λ h. cc, λ h. cc)
issued_iff TktStatus.received = (λ h. cc, λ h. cc)
issued_iff TktStatus.cancelled = (λ h. cc, λ h. cc)

none_below_iff :
    (ledger : Ledger) (from : ℕ) (lines : List TicketLine)
    → (none_below ledger from lines ≡ true)
      ↔ All (λ l. pos 0 ≤ℤ or_zero (ledger.balances from l.it)) lines
none_below_iff ledger from lines = (
  λ h.
      All-imp lines (λ l e. le_of_leb (pos 0) (or_zero (ledger.balances from l.it)) e)
        (every-All _ lines h),
  λ h.
      All-every _ lines
        (All-imp lines (λ l e. leb_of_le (pos 0) (or_zero (ledger.balances from l.it)) e) h),
)

-- A handover is done exactly where the ticket's own desk asks for it, the ticket is issued, fewer
-- than five wrong codes were typed on it, the code typed is the ticket's own, and no item of its
-- lines stands below nothing at the sending location once the lines are taken out.
pub handover_done_iff :
    (claims : Claims) (id : ℕ) (typed : List ℕ) (s : Store) (t : Ticket)
    → s.tickets id ≡ some t
    → (is_done (handover claims id typed s) ≡ true) ↔ MayCollect claims id typed s t
unfolding handover
handover_done_iff claims id typed s t h = rw h (
  λ k.
      let (own, k1) = (guard_iff (claims.loc == t.from) not_yours _).0 k in
      let (issued, k2) =
        (guard_iff (can_transition ticket_transitions t.st TktStatus.collected) wrong_state _).0
          k1 in
      let (few, k3) = (guard_iff (ltb t.otp_attempts otp_attempts_max) locked _).0 k2 in
      let (code, k4) = (counted_iff (otp_matches typed t.otp) _ _).0 k3 in
      let (covered, k5) =
        (guard_iff (none_below (taken_out claims id t s).ledger t.from t.lines) no_longer_there _).0
          k4 in
      (
        (==_iff claims.loc t.from).0 own,
        (issued_iff t.st).0 issued,
        ltb→lt t.otp_attempts otp_attempts_max few,
        (otp_matches_iff typed t.otp).0 code,
        (none_below_iff (taken_out claims id t s).ledger t.from t.lines).0 covered,
      ),
  λ (own, issued, few, code, covered). (guard_iff (claims.loc == t.from) not_yours _).1 (
    (==_iff claims.loc t.from).1 own,
    (guard_iff (can_transition ticket_transitions t.st TktStatus.collected) wrong_state _).1 (
      (issued_iff t.st).1 issued,
      (guard_iff (ltb t.otp_attempts otp_attempts_max) locked _).1 (
        ground arith,
        (counted_iff (otp_matches typed t.otp) _ _).1 (
          (otp_matches_iff typed t.otp).1 code,
          (guard_iff (none_below (taken_out claims id t s).ledger t.from t.lines) no_longer_there
                _).1
              ((none_below_iff (taken_out claims id t s).ledger t.from t.lines).1 covered, refl),
        ),
      ),
    ),
  ),
)
