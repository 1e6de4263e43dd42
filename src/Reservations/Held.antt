-- ===== src/Reservations/Held.antt =====
-- What the open holds come to, and what a release and a new hold do to it:
-- `reservedAt`, `reserve` and `releaseForTicket` of apps/api/src/lib/reservations.ts.
use rch.Prelude.{
  ℕ, ◌≡◌, refl, ◌∙◌, sym, inl, inr, Bool, true, false, ◌&&◌, not, List, [], ◌∷◌, ◌++◌, ◌+ℤ◌,
  if◌then◌else◌, ◌==◌, arith, Bool-cases, filter, All, ℤ, pos, ◌-ℤ◌, ◌≤ℤ◌, int_laws, IsMilli,
  add-IsMilli, sum_of,
}
use rch.Reservations.{Reservation, let_go, release_for_ticket, open_at}

abbrev pub held : List Reservation → ℕ → ℕ → ℤ
held rsv l i = sum_of (λ r. r.qty) (filter (open_at l i) rsv)

-- What is held for one ticket.
abbrev pub held_for : ℕ → List Reservation → ℕ → ℕ → ℤ
held_for id rsv l i = sum_of (λ r. r.qty) (filter (λ r. open_at l i r && (r.ticket == id)) rsv)

-- The holds are for whole thousandths and not below nothing.
abbrev pub IsHeld : List Reservation → Type 0
IsHeld = All (λ r. IsMilli r.qty × (pos 0 ≤ℤ r.qty))

pub held-IsMilli : (rsv : List Reservation) (l i : ℕ) → IsHeld rsv → IsMilli (held rsv l i)
held-IsMilli [] l i h = (refl, refl)
held-IsMilli (r ∷ rs) l i (hr, hs) = elim (Bool-cases (open_at l i r)) [
  | inl e ↦ rw e (add-IsMilli r.qty (held rs l i) hr.0 (held-IsMilli rs l i hs))
  | inr e ↦ rw e (held-IsMilli rs l i hs)
]

pub held_nonneg : (rsv : List Reservation) (l i : ℕ) → IsHeld rsv → pos 0 ≤ℤ held rsv l i
held_nonneg [] l i h = omega arith
held_nonneg (r ∷ rs) l i (hr, hs) = elim (Bool-cases (open_at l i r)) [
  | inl e ↦ rw e (omega (int_laws, hr.1, held_nonneg rs l i hs))
  | inr e ↦ rw e (held_nonneg rs l i hs)
]

pub held_for_nonneg :
    (id : ℕ) (rsv : List Reservation) (l i : ℕ) → IsHeld rsv → pos 0 ≤ℤ held_for id rsv l i
held_for_nonneg id [] l i h = omega arith
held_for_nonneg id (r ∷ rs) l i (hr, hs) = elim (Bool-cases (open_at l i r && (r.ticket == id))) [
  | inl e ↦ rw e (omega (int_laws, hr.1, held_for_nonneg id rs l i hs))
  | inr e ↦ rw e (held_for_nonneg id rs l i hs)
]

and_true : (b : Bool) → (b && true) ≡ b
and_true true = refl
and_true false = refl

and_false : (b : Bool) → (b && false) ≡ false
and_false true = refl
and_false false = refl

open-let_go :
    (id : ℕ) (r : Reservation) (l i : ℕ)
    → open_at l i (let_go id r) ≡ (open_at l i r && not (r.ticket == id))
open-let_go id r l i = elim (Bool-cases (r.ticket == id)) [
  | inl e ↦ rw e (and_false ((r.loc == l) && (r.it == i)) ∙ sym (and_false (open_at l i r)))
  | inr e ↦ rw e (sym (and_true (open_at l i r)))
]

qty-let_go : (id : ℕ) (r : Reservation) → (let_go id r).qty ≡ r.qty
qty-let_go id r = elim (Bool-cases (r.ticket == id)) [ inl e ↦ rw e refl | inr e ↦ rw e refl ]

-- A release gives back at each cell what was held for the ticket, and nothing else.
pub held-release :
    (id : ℕ) (rsv : List Reservation) (l i : ℕ)
    → held (release_for_ticket id rsv) l i ≡ held rsv l i -ℤ held_for id rsv l i
unfolding release_for_ticket
held-release id [] l i = omega int_laws
held-release id (r ∷ rs) l i = elim (Bool-cases (open_at l i r)) [
  | inl e ↦ elim (Bool-cases (r.ticket == id)) [
    | inl mine ↦ rw (open-let_go id r l i, e, mine, held-release id rs l i) (omega int_laws)
    | inr other ↦ rw (open-let_go id r l i, e, other, held-release id rs l i) (omega int_laws)
  ]
  | inr e ↦ rw (open-let_go id r l i, e, held-release id rs l i) refl
]

ticket-let_go : (id : ℕ) (r : Reservation) → (let_go id r).ticket ≡ r.ticket
ticket-let_go id r = elim (Bool-cases (r.ticket == id)) [ inl e ↦ rw e refl | inr e ↦ rw e refl ]

-- A release leaves what is held for another ticket.
pub held_for-release :
    (id other : ℕ) (rsv : List Reservation) (l i : ℕ)
    → (other == id) ≡ false
    → held_for other (release_for_ticket id rsv) l i ≡ held_for other rsv l i
unfolding release_for_ticket
held_for-release id other [] l i h = refl
held_for-release id other (r ∷ rs) l i h = elim (Bool-cases (open_at l i r)) [
  | inl e ↦ elim (Bool-cases (r.ticket == other)) [
    | inl its ↦
        let not_mine : (r.ticket == id) ≡ false = ground arith in
        rw
          (
            open-let_go id r l i,
            ticket-let_go id r,
            e,
            its,
            not_mine,
            held_for-release id other rs l i h,
          )
          refl
    | inr not_its ↦ elim (Bool-cases (r.ticket == id)) [
      | inl m ↦
          rw
            (
              open-let_go id r l i,
              ticket-let_go id r,
              e,
              not_its,
              m,
              held_for-release id other rs l i h,
            )
            refl
      | inr m ↦
          rw
            (
              open-let_go id r l i,
              ticket-let_go id r,
              e,
              not_its,
              m,
              held_for-release id other rs l i h,
            )
            refl
    ]
  ]
  | inr e ↦ rw (open-let_go id r l i, e, held_for-release id other rs l i h) refl
]

pub release-IsHeld :
    (id : ℕ) (rsv : List Reservation) → IsHeld rsv → IsHeld (release_for_ticket id rsv)
unfolding release_for_ticket
release-IsHeld id [] h = tt
release-IsHeld id (r ∷ rs) (hr, hs) = (rw (qty-let_go id r) hr, release-IsHeld id rs hs)

-- One more hold is added to what is held at its cell.
pub held-snoc :
    (rsv : List Reservation) (r : Reservation) (l i : ℕ)
    → held (rsv ++ r ∷ []) l i ≡ held rsv l i +ℤ (if open_at l i r then r.qty else pos 0)
held-snoc [] r l i = elim (Bool-cases (open_at l i r)) [
  | inl e ↦ rw e (omega int_laws)
  | inr e ↦ rw e (omega int_laws)
]
held-snoc (x ∷ xs) r l i =
    let ih = held-snoc xs r l i in
    elim (Bool-cases (open_at l i x)) [
      | inl e ↦ rw (e, ih) (omega int_laws)
      | inr e ↦ rw (e, ih) refl
    ]

pub held_for-snoc :
    (id : ℕ) (rsv : List Reservation) (r : Reservation) (l i : ℕ)
    → held_for id (rsv ++ r ∷ []) l i
      ≡ held_for id rsv l i +ℤ (if open_at l i r && (r.ticket == id) then r.qty else pos 0)
held_for-snoc id [] r l i = elim (Bool-cases (open_at l i r && (r.ticket == id))) [
  | inl e ↦ rw e (omega int_laws)
  | inr e ↦ rw e (omega int_laws)
]
held_for-snoc id (x ∷ xs) r l i =
    let ih = held_for-snoc id xs r l i in
    elim (Bool-cases (open_at l i x && (x.ticket == id))) [
      | inl e ↦ rw (e, ih) (omega int_laws)
      | inr e ↦ rw (e, ih) refl
    ]
