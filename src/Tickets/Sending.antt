-- ===== src/Tickets/Sending.antt =====
-- A shop transfer promises only what is free: `transfer` of
-- apps/api/src/modules/tickets/service.ts.
use rch.Prelude.{
  ℕ, ◌≡◌, refl, ◌∙◌, inl, inr, false, ◌&&◌, not, is_some, Option-cases, List, [], ◌∷◌, ◌++◌, ◌==◌,
  ==_iff, arith, if◌then◌else◌, Bool-cases, All-append, ℤ, pos, negsuc, ◌+ℤ◌, ◌-ℤ◌, ◌≤ℤ◌, ◌<ℤ◌,
  ◌==ℤ◌, ltb_ℤ, lt_of_ltb, leb_ℤ, le_of_leb, int_laws, round3, round3_self, round3-IsMilli, IsMilli,
  sub-IsMilli,
}
use rch.Catalog.{or_zero}
use rch.Ledger.{Ledger}
use rch.Ledger.Cache.{IsCached, lock_balances-IsCached, on_hand_moved, moved-IsMilli}
use rch.Reservations.{Reservation, reserve, reserved_at, open_at}
use rch.Reservations.Held.{held, held_for, held-IsMilli, held-snoc, held_for-snoc}
use rch.Tickets.{Ticket, Store, committed, put, write_ticket, sent_lines, fold_lines, fold_line}
use rch.Tickets.Service.{Claims}
use rch.Tickets.Transfer.{TransferBody, transfer, transfer_draft, free_at, numbered_on, is_outlet}
use rch.Tickets.Cover.{IsCovered, IsCoveredBy, IsBacked, put_lem}
use rch.Tickets.Movement.{AreLines, wanted}
use rch.Tickets.Promise.{guarded}

pub round3_mono : (a b : ℤ) → a ≤ℤ b → round3 a ≤ℤ round3 b
unfolding round3
round3_mono (pos a) (pos b) h = ground arith
round3_mono (pos a) (negsuc b) h = ground arith
round3_mono (negsuc a) (pos b) h = ground arith
round3_mono (negsuc a) (negsuc b) h = ground arith

pub round3_low : (v : ℤ) → pos 0 ≤ℤ v → pos 0 ≤ℤ round3 v
unfolding round3
round3_low (pos n) h = ground arith
round3_low (negsuc n) h = ground arith

pub on_hand-IsMilli : (s : Ledger) → IsCached s → (l i : ℕ) → IsMilli (or_zero (s.balances l i))
on_hand-IsMilli s h l i = rw (on_hand_moved s h l i) (moved-IsMilli l i s.moves h.decimals)

-- What is free at a cell, without rounding.
pub free_at_lem :
    (s : Store) (l i : ℕ)
    → IsCovered s
    → free_at s l i ≡ or_zero (s.ledger.balances l i) -ℤ held s.rsv l i
unfolding reserved_at
free_at_lem s l i h =
    let exact = held-IsMilli s.rsv l i h.holds in
    rw
      (
        round3_self (held s.rsv l i) exact,
        round3_self (or_zero (s.ledger.balances l i) -ℤ held s.rsv l i)
            (sub-IsMilli _ _ (on_hand-IsMilli s.ledger h.cached l i) exact),
      )
      refl

-- A ticket of one line under a number that no hold carries, for no more than is free.
module _ (s : Store) (h : IsCovered s) (id from it : ℕ) (q : ℤ) (t : Ticket) where
  abbrev hold : Reservation
  hold = record { loc = from; it = it; qty = q; ticket = id; released = false }

  own_hold :
      ((l i : ℕ) → held_for id s.rsv l i ≡ pos 0)
      → t.from ≡ from
      → t.lines ≡ record { it = it; qty = q } ∷ []
      → (l i : ℕ)
      → held_for id (s.rsv ++ hold ∷ []) l i ≡ (if t.from == l then wanted i t.lines else pos 0)
  own_hold fresh own line l i =
      let same = (==_iff id id).1 refl in
      rw (held_for-snoc id s.rsv hold l i, fresh l i, own, line, same)
        (elim (Bool-cases (from == l)) [
          | inl e ↦ elim (Bool-cases (it == i)) [
            | inl f ↦ rw (e, f) (omega int_laws)
            | inr f ↦ rw (e, f) (omega int_laws)
          ]
          | inr e ↦ rw e (omega int_laws)
        ])

  other_hold :
      (other l i : ℕ)
      → (other == id) ≡ false
      → held_for other (s.rsv ++ hold ∷ []) l i ≡ held_for other s.rsv l i
  other_hold other l i e =
      let apart : (id == other) ≡ false = ground arith in
      rw (held_for-snoc other s.rsv hold l i, apart)
        (elim (Bool-cases (open_at l i hold)) [
          | inl f ↦ rw f (omega int_laws)
          | inr f ↦ rw f (omega int_laws)
        ])

  send-IsCoveredBy :
      (ledger : Ledger)
      → IsCached ledger
      → ((l i : ℕ) → or_zero (ledger.balances l i) ≡ or_zero (s.ledger.balances l i))
      → IsMilli q
      → pos 0 ≤ℤ q
      → q ≤ℤ or_zero (s.ledger.balances from it) -ℤ held s.rsv from it
      → ((l i : ℕ) → held_for id s.rsv l i ≡ pos 0)
      → t.from ≡ from
      → t.lines ≡ record { it = it; qty = q } ∷ []
      → IsCoveredBy ledger (s.rsv ++ hold ∷ []) (put id t s.tickets)
  send-IsCoveredBy ledger cached same exact low free fresh own line = record {
    cached = cached;
    holds =
        All-append (λ r. IsMilli r.qty × (pos 0 ≤ℤ r.qty)) s.rsv (hold ∷ []) h.holds
          ((exact, low), tt);
    covered = λ l i.
        let before = h.covered l i in
        rw (held-snoc s.rsv hold l i, same l i)
          (elim (Bool-cases (open_at l i hold)) [
            | inl e ↦
                let there : from ≡ l = ground arith in
                let item : it ≡ i = ground arith in
                let room : q ≤ℤ or_zero (s.ledger.balances l i) -ℤ held s.rsv l i =
                  rw (← there, ← item) free in
                rw e (omega (int_laws, room))
            | inr e ↦ rw e (omega (int_laws, before))
          ]);
    lines =
        put_lem (λ k u. AreLines u.lines) id t s.tickets (rw line ((exact, low), tt))
          (λ other u e f. h.lines other u f);
    backed =
        put_lem (IsBacked (s.rsv ++ hold ∷ [])) id t s.tickets
          (λ issued l i. own_hold fresh own line l i)
          (λ other u e f issued l i. other_hold other l i e ∙ h.backed other u f issued l i);
  }

sent_one :
    (it : ℕ) (qty : ℤ)
    → sent_lines (record { it = it; qty = qty } ∷ []) ≡ (
        if not (round3 (pos 0 +ℤ qty) ==ℤ pos 0)
        then record { it = it; qty = round3 (pos 0 +ℤ qty) } ∷ []
        else [])
unfolding sent_lines fold_lines fold_line
sent_one it qty = refl

write_one-IsCovered :
    (claims : Claims) (body : TransferBody) (otp : List ℕ) (s : Store)
    → IsCovered s
    → ((l i : ℕ) → held_for s.next_ticket s.rsv l i ≡ pos 0)
    → pos 0 <ℤ body.qty
    → body.qty ≤ℤ free_at s body.from body.it
    → IsCovered
        (committed s (write_ticket (transfer_draft claims body) s.next_ticket otp (numbered_on s)))
unfolding committed write_ticket reserve
write_one-IsCovered claims body otp s h fresh some_asked enough =
    let q = round3 (pos 0 +ℤ body.qty) in
    let plain : pos 0 +ℤ body.qty ≡ body.qty = omega int_laws in
    let free = free_at_lem s body.from body.it h in
    let exact =
      sub-IsMilli _ _ (on_hand-IsMilli s.ledger h.cached body.from body.it)
        (held-IsMilli s.rsv body.from body.it h.holds) in
    let mono = round3_mono body.qty _ (rw (← free) enough) in
    let room : round3 body.qty
        ≤ℤ or_zero (s.ledger.balances body.from body.it) -ℤ held s.rsv body.from body.it =
      rw
        (← round3_self
          (or_zero (s.ledger.balances body.from body.it) -ℤ held s.rsv body.from body.it) exact)
        mono in
    let locked = lock_balances-IsCached ((body.from, body.it) ∷ []) s.ledger h.cached in
    rw (sent_one body.it body.qty, plain)
      (elim (Bool-cases (round3 body.qty ==ℤ pos 0)) [
        | inl nothing ↦ rw nothing h
        | inr something ↦
            rw (something, round3_self (round3 body.qty) (round3-IsMilli body.qty))
              (send-IsCoveredBy s h s.next_ticket body.from body.it (round3 body.qty) _ _ locked.0
                locked.1 (round3-IsMilli body.qty) (round3_low body.qty (omega (arith, some_asked)))
                room fresh refl refl)
      ])

-- A shop transfer keeps every open hold covered, where no hold carries the number that it takes: it
-- promises no more than is free at the sending outlet.
pub transfer-IsCovered :
    (claims : Claims) (body : TransferBody) (otp : List ℕ) (s : Store)
    → IsCovered s
    → ((l i : ℕ) → held_for s.next_ticket s.rsv l i ≡ pos 0)
    → IsCovered (committed s (transfer claims body otp s))
unfolding committed transfer
transfer-IsCovered claims body otp s h fresh = guarded s (ltb_ℤ (pos 0) body.qty) _ _ h (λ asked.
    guarded s (is_some (s.master.items body.it)) _ _ h (λ known.
      elim (Bool-cases (body.from == body.to)) [
        | inl same ↦ rw same h
        | inr apart ↦ rw apart (elim (Option-cases (s.master.locations body.from)) [
          | inl gone ↦ rw gone h
          | inr (from, e) ↦ elim (Option-cases (s.master.locations body.to)) [
            | inl gone ↦ rw (e, gone) h
            | inr (to, f) ↦
                rw (e, f)
                  (guarded s (is_outlet from.type && is_outlet to.type) _ _ h (λ outlets.
                    guarded s (from.active && to.active) _ _ h (λ open_both.
                      guarded s (leb_ℤ body.qty (free_at s body.from body.it)) _ _ h (λ enough.
                        write_one-IsCovered claims body otp s h fresh
                          (lt_of_ltb (pos 0) body.qty asked)
                          (le_of_leb body.qty (free_at s body.from body.it) enough)))))
          ]
        ])
      ]))
