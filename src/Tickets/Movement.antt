-- ===== src/Tickets/Movement.antt =====
-- What the moves of a ticket come to at each cell: the lists that `handover` and `receive` of
-- apps/api/src/modules/tickets/service.ts hand to `postMoves`.
use rch.Prelude.{
  ℕ, ◌≡◌, refl, ap, ◌∙◌, inl, inr, Option, List, [], ◌∷◌, ◌==◌, arith, if◌then◌else◌, Bool-cases,
  filter, All, ℤ, pos, ◌-ℤ◌, ◌≤ℤ◌, int_laws, IsMilli, sub-IsMilli, round3_self, sum_of,
}
use rch.Catalog.{Item}
use rch.Ledger.{Move, is_used, with_use_on_arrival, at_cell, stored, moved}
use rch.Tickets.{TicketLine}
use rch.Tickets.Service.{Claims, out_moves, in_moves}

-- What the lines say of one item.
abbrev pub wanted : ℕ → List TicketLine → ℤ
wanted i lines = sum_of (λ ln. ln.qty) (filter (λ ln. ln.it == i) lines)

abbrev pub AreLines : List TicketLine → Type 0
AreLines = All (λ ln. IsMilli ln.qty × (pos 0 ≤ℤ ln.qty))

pub minus_IsMilli : (q : ℤ) → IsMilli q → IsMilli (pos 0 -ℤ q)
minus_IsMilli q h = sub-IsMilli (pos 0) q (refl, refl) h

-- A handover takes its lines out of the sending location.
pub moved-out :
    (claims : Claims) (id from l i : ℕ) (lines : List TicketLine)
    → AreLines lines
    → moved l i (stored (out_moves claims id from lines))
      ≡ (if from == l then pos 0 -ℤ wanted i lines else pos 0)
moved-out claims id from l i [] h = elim (Bool-cases (from == l)) [
  | inl e ↦ rw e (omega int_laws)
  | inr e ↦ rw e refl
]
moved-out claims id from l i (ln ∷ rest) (hn, hs) =
    let ih = moved-out claims id from l i rest hs in
    elim (Bool-cases (from == l)) [
      | inl e ↦
          let here = ap (λ t. if t then pos 0 -ℤ wanted i rest else pos 0) e in
          elim (Bool-cases (ln.it == i)) [
            | inl it ↦
                rw (e, it, round3_self (pos 0 -ℤ ln.qty) (minus_IsMilli ln.qty hn.0), ih ∙ here)
                  (omega int_laws)
            | inr it ↦ rw (e, it, ih ∙ here) refl
          ]
      | inr e ↦
          let here = ap (λ t. if t then pos 0 -ℤ wanted i rest else pos 0) e in
          rw (e, ih ∙ here) refl
    ]

-- What lands is on the shelf or used in the same breath: no cell loses by it.
pub moved-landed :
    (items : ℕ → Option Item) (l i : ℕ) (ms : List Move)
    → All (λ m. IsMilli m.qty × (pos 0 ≤ℤ m.qty)) ms
    → pos 0 ≤ℤ moved l i (stored (with_use_on_arrival items ms))
unfolding with_use_on_arrival
moved-landed items l i [] h = omega arith
moved-landed items l i (m ∷ ms) (hm, hs) =
    let ih = moved-landed items l i ms hs in
    let there = round3_self m.qty hm.0 in
    let back = round3_self (pos 0 -ℤ m.qty) (minus_IsMilli m.qty hm.0) in
    elim (Bool-cases (is_used (items m.it) m)) [
      | inl used ↦ elim (Bool-cases (at_cell l i m)) [
        | inl e ↦ rw (used, e, there, back) (omega (int_laws, ih))
        | inr e ↦ rw (used, e) ih
      ]
      | inr kept ↦ elim (Bool-cases (at_cell l i m)) [
        | inl e ↦ rw (kept, e, there) (omega (int_laws, ih, hm.1))
        | inr e ↦ rw (kept, e) ih
      ]
    ]

pub in_moves-land :
    (claims : Claims) (id to : ℕ) (lines : List TicketLine)
    → AreLines lines
    → All (λ m. IsMilli m.qty × (pos 0 ≤ℤ m.qty)) (in_moves claims id to lines)
in_moves-land claims id to [] h = tt
in_moves-land claims id to (ln ∷ rest) (hn, hs) = (hn, in_moves-land claims id to rest hs)
