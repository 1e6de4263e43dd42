-- ===== src/Tickets/Cover.antt =====
-- The promise behind every ticket: what is held stands on the shelf. The writes are `handover`,
-- `receive` and `cancel` of apps/api/src/modules/tickets/service.ts.
use rch.Prelude.{
  ℕ, ◌≡◌, ◌≢◌, refl, sym, ◌∙◌, inl, inr, false, Option, some, List, ◌==◌, ==_iff, if◌then◌else◌,
  Bool-cases, pos, ◌≤ℤ◌, int_laws, ap,
}
use rch.Workflow.Status.{TktStatus}
use rch.Catalog.{or_zero}
use rch.Ledger.{Ledger, post_moves, with_use_on_arrival}
use rch.Ledger.Cache.{IsCached, post_moves-IsCached, post_moves_on_hand}
use rch.Reservations.{Reservation, release_for_ticket}
use rch.Reservations.Held.{
  held, held_for, IsHeld, held_for_nonneg, held-release, held_for-release, release-IsHeld,
}
use rch.Tickets.{Ticket, Store, put, with_status, counted_once}
use rch.Tickets.Service.{Claims, out_moves, in_moves}
use rch.Tickets.Movement.{wanted, AreLines, moved-out, moved-landed, in_moves-land}

-- What an issued ticket holds: its lines, at the location that it is sent from.
abbrev pub IsBacked : List Reservation → ℕ → Ticket → Type 0
IsBacked rsv id t =
    t.st ≡ TktStatus.issued
    → (l i : ℕ) → held_for id rsv l i ≡ (if t.from == l then wanted i t.lines else pos 0)

-- On a ledger, its holds and the tickets: the balances are the sums of the moves, and at every
-- cell there is as much on hand as the open holds come to.
pub record IsCoveredBy (ledger : Ledger) (rsv : List Reservation) (tickets : ℕ → Option Ticket)
    : Type 0 where
  pub cached : IsCached ledger
  pub holds : IsHeld rsv
  pub covered : (l i : ℕ) → held rsv l i ≤ℤ or_zero (ledger.balances l i)
  pub lines : (id : ℕ) (t : Ticket) → tickets id ≡ some t → AreLines t.lines
  pub backed : (id : ℕ) (t : Ticket) → tickets id ≡ some t → IsBacked rsv id t

abbrev pub IsCovered : Store → Type 0
IsCovered s = IsCoveredBy s.ledger s.rsv s.tickets

pub put_lem :
    (P : ℕ → Ticket → Type 0) (id : ℕ) (t : Ticket) (rows : ℕ → Option Ticket)
    → P id t
    → ((other : ℕ) (u : Ticket) → (other == id) ≡ false → rows other ≡ some u → P other u)
    → (other : ℕ) (u : Ticket) → put id t rows other ≡ some u
    → P other u
put_lem P id t rows hit miss other u h = elim (Bool-cases (other == id)) [
  | inl e ↦
      let found : some t ≡ some u = ap (λ b. if b then some t else rows other) (sym e) ∙ h in
      let same : t ≡ u = cc in let key : other ≡ id = (==_iff other id).0 e in rw (key, ← same) hit
  | inr e ↦ miss other u e (ap (λ b. if b then some t else rows other) (sym e) ∙ h)
]

-- The tickets with one of them moved off `Issued`.
module _ (id : ℕ) (t : Ticket) (st : TktStatus) (left : st ≢ TktStatus.issued) where
  lines-put :
      (tickets : ℕ → Option Ticket)
      → AreLines t.lines
      → ((other : ℕ) (u : Ticket) → tickets other ≡ some u → AreLines u.lines)
      → (other : ℕ) (u : Ticket) → put id (with_status st t) tickets other ≡ some u
      → AreLines u.lines
  lines-put tickets own h =
      put_lem (λ k u. AreLines u.lines) id (with_status st t) tickets own
        (λ other u e f. h other u f)

  IsBacked-put :
      (rsv rsv' : List Reservation) (tickets : ℕ → Option Ticket)
      → ((other l i : ℕ) → (other == id) ≡ false → held_for other rsv' l i ≡ held_for other rsv l i)
      → ((other : ℕ) (u : Ticket) → tickets other ≡ some u → IsBacked rsv other u)
      → (other : ℕ) (u : Ticket) → put id (with_status st t) tickets other ≡ some u
      → IsBacked rsv' other u
  IsBacked-put rsv rsv' tickets same h =
      put_lem (IsBacked rsv') id (with_status st t) tickets (λ issued l i. absurd (left issued))
        (λ other u e f issued l i. same other l i e ∙ h other u f issued l i)

pub collect-IsCoveredBy :
    (claims : Claims) (id : ℕ) (t : Ticket) (s : Store)
    → IsCovered s
    → s.tickets id ≡ some t
    → t.st ≡ TktStatus.issued
    → IsCoveredBy
        (post_moves (out_moves claims id t.from t.lines) s.ledger)
        (release_for_ticket id s.rsv)
        (put id (with_status TktStatus.collected t) s.tickets)
collect-IsCoveredBy claims id t s h found issued =
    let own = h.lines id t found in
    record {
      cached = (post_moves-IsCached (out_moves claims id t.from t.lines) s.ledger h.cached).0;
      holds = release-IsHeld id s.rsv h.holds;
      covered = λ l i.
          let before = h.covered l i in
          rw
            (
              held-release id s.rsv l i,
              (post_moves_on_hand (out_moves claims id t.from t.lines) s.ledger l i h.cached).0,
              h.backed id t found issued l i,
              moved-out claims id t.from l i t.lines own,
            )
            (elim (Bool-cases (t.from == l)) [
              | inl e ↦ rw e (omega (int_laws, before))
              | inr e ↦ rw e (omega (int_laws, before))
            ]);
      lines = lines-put id t TktStatus.collected (λ e. cc) s.tickets own h.lines;
      backed =
          IsBacked-put id t TktStatus.collected (λ e. cc) s.rsv _ s.tickets
            (λ other l i e. held_for-release id other s.rsv l i e) h.backed;
    }

pub land-IsCoveredBy :
    (claims : Claims) (id : ℕ) (t : Ticket) (s : Store)
    → IsCovered s
    → s.tickets id ≡ some t
    → IsCoveredBy
        (post_moves (with_use_on_arrival s.master.items (in_moves claims id t.to t.lines)) s.ledger)
        s.rsv
        (put id (with_status TktStatus.received t) s.tickets)
land-IsCoveredBy claims id t s h found =
    let own = h.lines id t found in
    let moves = with_use_on_arrival s.master.items (in_moves claims id t.to t.lines) in
    record {
      cached = (post_moves-IsCached moves s.ledger h.cached).0;
      holds = h.holds;
      covered = λ l i.
          let before = h.covered l i in
          let more = moved-landed s.master.items l i _ (in_moves-land claims id t.to t.lines own) in
          rw (post_moves_on_hand moves s.ledger l i h.cached).0 (omega (int_laws, before, more));
      lines = lines-put id t TktStatus.received (λ e. cc) s.tickets own h.lines;
      backed =
          IsBacked-put id t TktStatus.received (λ e. cc) s.rsv s.rsv s.tickets (λ other l i e. refl)
            h.backed;
    }

pub void-IsCoveredBy :
    (id : ℕ) (t : Ticket) (s : Store)
    → IsCovered s
    → s.tickets id ≡ some t
    → IsCoveredBy s.ledger
        (release_for_ticket id s.rsv)
        (put id (with_status TktStatus.cancelled t) s.tickets)
void-IsCoveredBy id t s h found = record {
  cached = h.cached;
  holds = release-IsHeld id s.rsv h.holds;
  covered = λ l i.
      let before = h.covered l i in
      rw (held-release id s.rsv l i)
        (omega (int_laws, before, held_for_nonneg id s.rsv l i h.holds));
  lines = lines-put id t TktStatus.cancelled (λ e. cc) s.tickets (h.lines id t found) h.lines;
  backed =
      IsBacked-put id t TktStatus.cancelled (λ e. cc) s.rsv _ s.tickets
        (λ other l i e. held_for-release id other s.rsv l i e) h.backed;
}

pub count-IsCoveredBy :
    (id : ℕ) (t : Ticket) (s : Store)
    → IsCovered s
    → s.tickets id ≡ some t
    → IsCoveredBy s.ledger s.rsv (put id (counted_once t) s.tickets)
count-IsCoveredBy id t s h found = record {
  cached = h.cached;
  holds = h.holds;
  covered = h.covered;
  lines =
      put_lem (λ k u. AreLines u.lines) id (counted_once t) s.tickets (h.lines id t found)
        (λ other u e f. h.lines other u f);
  backed =
      put_lem (IsBacked s.rsv) id (counted_once t) s.tickets (h.backed id t found)
        (λ other u e f. h.backed other u f);
}
