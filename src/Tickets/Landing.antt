-- ===== src/Tickets/Landing.antt =====
-- What the moves of a receipt come to at each cell, on the shelf and in use: the list that `receive`
-- of apps/api/src/modules/tickets/service.ts makes with `withUseOnArrival` of
-- apps/api/src/lib/ledger.ts.
use rch.Prelude.{
  ◌≤ℤ◌, ℕ, ◌≡◌, refl, ap, ◌∙◌, inl, inr, Bool, true, false, ◌&&◌, Option, none, some, List, [], ◌∷◌,
  ◌++◌, ◌==◌, ==_iff, if◌then◌else◌, Bool-cases, filter, arith, ℤ, pos, ◌+ℤ◌, ◌-ℤ◌, ◌==ℤ◌, ltb_ℤ,
  int_laws, round3, round3_self, sum_of,
}
use rch.Workflow.Status.{tkt_coded, req_coded}
use rch.Catalog.{Item, used_on_arrival}
use rch.Ledger.{
  Move, MoveKind, production_consume, ticket_in, ticket_ref, is_used, with_use_on_arrival, at_cell,
  real, stored, moved,
}
use rch.Ledger.Cache.{zero_of}
use rch.Tickets.{Ticket, TicketLine, Store}
use rch.Tickets.Service.{Claims, in_moves}
use rch.Tickets.Movement.{wanted, AreLines, minus_IsMilli}

abbrev uses_item : Option Item → ℕ → Bool
uses_item none l = false
uses_item (some item) l = used_on_arrival item.t l

-- An item of which nothing stays on the shelf of the location.
abbrev pub uses : (ℕ → Option Item) → ℕ → ℕ → Bool
uses items l i = uses_item (items i) l

-- What a receipt leaves on a shelf, and what it consumes at once.
abbrev pub landed : Store → Ticket → ℕ → ℕ → ℤ
landed s t l i =
    if t.to == l then (if uses s.master.items t.to i then pos 0 else wanted i t.lines) else pos 0

abbrev pub consumed_at_once : Store → Ticket → ℕ → ℕ → ℤ
consumed_at_once s t l i =
    if t.to == l then (if uses s.master.items t.to i then wanted i t.lines else pos 0) else pos 0

abbrev is_use : MoveKind → Bool
is_use production_consume = true
is_use kind = false

abbrev is_use_at : ℕ → ℕ → Move → Bool
is_use_at l i m = at_cell l i m && is_use m.kind

-- What the `production_consume` moves of a cell come to.
abbrev pub used_up : ℕ → ℕ → List Move → ℤ
used_up l i moves = sum_of (λ m. m.qty) (filter (is_use_at l i) moves)

pub used_up-append :
    (l i : ℕ) (xs ys : List Move) → used_up l i (xs ++ ys) ≡ used_up l i xs +ℤ used_up l i ys
used_up-append l i [] ys = omega int_laws
used_up-append l i (m ∷ xs) ys = elim (Bool-cases (is_use_at l i m)) [
  | inl e ↦ let ih = used_up-append l i xs ys in rw (e, ih) (omega int_laws)
  | inr e ↦ rw (e, used_up-append l i xs ys) refl
]

pub used_up-real :
    (l i : ℕ) (ms : List Move) → used_up l i (stored (real ms)) ≡ used_up l i (stored ms)
unfolding real
used_up-real l i [] = refl
used_up-real l i (m ∷ ms) = elim (Bool-cases (round3 m.qty ==ℤ pos 0)) [
  | inl e ↦ elim (Bool-cases (is_use_at l i m)) [
    | inl a ↦ rw (e, a, zero_of (round3 m.qty) e, used_up-real l i ms) (omega int_laws)
    | inr a ↦ rw (e, a, used_up-real l i ms) refl
  ]
  | inr e ↦ elim (Bool-cases (is_use_at l i m)) [
    | inl a ↦ rw (e, a, used_up-real l i ms) refl
    | inr a ↦ rw (e, a, used_up-real l i ms) refl
  ]
]

is_used_eq : (o : Option Item) (m : Move) → is_used o m ≡ (ltb_ℤ (pos 0) m.qty && uses_item o m.loc)
is_used_eq none m = ground arith
is_used_eq (some item) m = refl

abbrev landing : Claims → ℕ → ℕ → TicketLine → Move
landing claims id to ln = record {
  loc = to;
  it = ln.it;
  qty = ln.qty;
  kind = ticket_in;
  ref_type = ticket_ref;
  ref_id = id;
  by = some claims.sub;
  reverses = none;
}

-- Of an item that is used on arrival, a line is consumed as soon as it is of something.
used_here :
    (claims : Claims) (id : ℕ) (items : ℕ → Option Item) (to i : ℕ) (ln : TicketLine)
    → (ln.it == i) ≡ true
    → is_used (items ln.it) (landing claims id to ln) ≡ (ltb_ℤ (pos 0) ln.qty && uses items to i)
used_here claims id items to i ln it =
    is_used_eq (items ln.it) (landing claims id to ln)
    ∙ ap (λ j. ltb_ℤ (pos 0) ln.qty && uses items to j) ((==_iff ln.it i).0 it)

flat : (b u : Bool) → pos 0 ≡ (if b then (if u then pos 0 else pos 0) else pos 0)
flat true true = refl
flat true false = refl
flat false u = refl

flat_less : (b u : Bool) → pos 0 ≡ (if b then (if u then pos 0 -ℤ pos 0 else pos 0) else pos 0)
unfolding ◌-ℤ◌
flat_less true true = refl
flat_less true false = refl
flat_less false u = refl

none_positive : (q : ℤ) → pos 0 ≤ℤ q → ltb_ℤ (pos 0) q ≡ false → q ≡ pos 0
none_positive q h e = ground arith

module _ (claims : Claims) (id : ℕ) (items : ℕ → Option Item) (to l i : ℕ) where
  abbrev batch : List TicketLine → List Move
  batch lines = with_use_on_arrival items (in_moves claims id to lines)

  abbrev stays : List TicketLine → ℤ
  stays lines = if to == l then (if uses items to i then pos 0 else wanted i lines) else pos 0

  pub moved-batch :
      (lines : List TicketLine) → AreLines lines → moved l i (stored (batch lines)) ≡ stays lines
  unfolding with_use_on_arrival
  moved-batch [] h = flat (to == l) (uses items to i)
  moved-batch (ln ∷ rest) (hn, hs) =
      let ih = moved-batch rest hs in
      let there = round3_self ln.qty hn.0 in
      let back = round3_self (pos 0 -ℤ ln.qty) (minus_IsMilli ln.qty hn.0) in
      elim (Bool-cases (to == l)) [
        | inr e ↦
            let here =
              ap (λ b. if b then (if uses items to i then pos 0 else wanted i rest) else pos 0) e in
            elim (Bool-cases (is_used (items ln.it) (landing claims id to ln))) [
              | inl w ↦ rw (w, e, ih ∙ here) refl
              | inr w ↦ rw (w, e, ih ∙ here) refl
            ]
        | inl e ↦
            let here =
              ap (λ b. if b then (if uses items to i then pos 0 else wanted i rest) else pos 0) e in
            elim (Bool-cases (ln.it == i)) [
              | inr it ↦ elim (Bool-cases (is_used (items ln.it) (landing claims id to ln))) [
                | inl w ↦ rw (w, e, it, ih ∙ here) refl
                | inr w ↦ rw (w, e, it, ih ∙ here) refl
              ]
              | inl it ↦ elim (Bool-cases (uses items to i)) [
                | inl u ↦
                    let none_left = ap (λ b. if b then pos 0 else wanted i rest) u in
                    elim (Bool-cases (ltb_ℤ (pos 0) ln.qty)) [
                      | inl p ↦
                          let w : is_used (items ln.it) (landing claims id to ln) ≡ true =
                            used_here claims id items to i ln it ∙ rw (p, u) refl in
                          rw (w, e, it, u, there, back, ih ∙ here ∙ none_left) (omega int_laws)
                      | inr p ↦
                          let w : is_used (items ln.it) (landing claims id to ln) ≡ false =
                            used_here claims id items to i ln it ∙ rw p refl in
                          let nothing = none_positive ln.qty hn.1 p in
                          rw (w, e, it, u, there, ih ∙ here ∙ none_left, nothing) (omega int_laws)
                    ]
                | inr u ↦
                    let all_left = ap (λ b. if b then pos 0 else wanted i rest) u in
                    let w : is_used (items ln.it) (landing claims id to ln) ≡ false =
                      used_here claims id items to i ln it ∙ rw u (ground arith) in
                    rw (w, e, it, u, there, ih ∙ here ∙ all_left) refl
              ]
            ]
      ]

  abbrev goes : List TicketLine → ℤ
  goes lines =
      if to == l then (if uses items to i then pos 0 -ℤ wanted i lines else pos 0) else pos 0

  pub used_up-batch :
      (lines : List TicketLine) → AreLines lines → used_up l i (stored (batch lines)) ≡ goes lines
  unfolding with_use_on_arrival
  used_up-batch [] h = flat_less (to == l) (uses items to i)
  used_up-batch (ln ∷ rest) (hn, hs) =
      let ih = used_up-batch rest hs in
      let back = round3_self (pos 0 -ℤ ln.qty) (minus_IsMilli ln.qty hn.0) in
      elim (Bool-cases (to == l)) [
        | inr e ↦
            let here =
              ap
                (λ b.
                  if b then (if uses items to i then pos 0 -ℤ wanted i rest else pos 0) else pos 0)
                e in
            elim (Bool-cases (is_used (items ln.it) (landing claims id to ln))) [
              | inl w ↦ rw (w, e, ih ∙ here) refl
              | inr w ↦ rw (w, e, ih ∙ here) refl
            ]
        | inl e ↦
            let here =
              ap
                (λ b.
                  if b then (if uses items to i then pos 0 -ℤ wanted i rest else pos 0) else pos 0)
                e in
            elim (Bool-cases (ln.it == i)) [
              | inr it ↦ elim (Bool-cases (is_used (items ln.it) (landing claims id to ln))) [
                | inl w ↦ rw (w, e, it, ih ∙ here) refl
                | inr w ↦ rw (w, e, it, ih ∙ here) refl
              ]
              | inl it ↦ elim (Bool-cases (uses items to i)) [
                | inl u ↦
                    let gone = ap (λ b. if b then pos 0 -ℤ wanted i rest else pos 0) u in
                    elim (Bool-cases (ltb_ℤ (pos 0) ln.qty)) [
                      | inl p ↦
                          let w : is_used (items ln.it) (landing claims id to ln) ≡ true =
                            used_here claims id items to i ln it ∙ rw (p, u) refl in
                          rw (w, e, it, u, back, ih ∙ here ∙ gone) (omega int_laws)
                      | inr p ↦
                          let w : is_used (items ln.it) (landing claims id to ln) ≡ false =
                            used_here claims id items to i ln it ∙ rw p refl in
                          let nothing = none_positive ln.qty hn.1 p in
                          rw (w, e, it, u, ih ∙ here ∙ gone, nothing) (omega int_laws)
                    ]
                | inr u ↦
                    let left = ap (λ b. if b then pos 0 -ℤ wanted i rest else pos 0) u in
                    let w : is_used (items ln.it) (landing claims id to ln) ≡ false =
                      used_here claims id items to i ln it ∙ rw u (ground arith) in
                    rw (w, e, it, u, ih ∙ here ∙ left) refl
              ]
            ]
      ]
