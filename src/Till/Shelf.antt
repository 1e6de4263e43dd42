-- ===== src/Till/Shelf.antt =====
-- What a sale does to the shelves that the tickets hold stock on: the cover checks of `postSale`,
-- apps/api/src/lib/sale.ts.
use rch.Prelude.{
  ℕ, ◌≡◌, refl, inl, inr, true, false, List, [], ◌∷◌, map, filter, ◌==◌, ==_iff, Bool-cases, All,
  arith, ℤ, pos, ◌+ℤ◌, ◌-ℤ◌, ◌≤ℤ◌, le_of_leb, leb_of_le, int_laws, round3, round3_self,
  round3-IsMilli, IsMilli, sub-IsMilli, parts_of_eq,
}
use rch.Catalog.{Master, Prices}
use rch.Ledger.{post_moves, stored, moved}
use rch.Ledger.Cache.{IsCached, post_moves-IsCached, post_moves_on_hand}
use rch.Reservations.{reserved_at}
use rch.Reservations.Held.{held}
use rch.Billing.{Cart, ShelfMove, plan_bill, is_mto}
use rch.Billing.Plan.{plan_bill_lem, moves_stock, move_of}
use rch.Tickets.{Store}
use rch.Tickets.Rows.{with_ledger}
use rch.Tickets.Transfer.{free_at}
use rch.Tickets.Cover.{IsCovered}
use rch.Tickets.Sending.{free_at_lem, on_hand-IsMilli}
use rch.Till.Sale.{took_from, is_covered, is_still_covered, moves_for}
use rch.Till.Menu.{add_to}
use rch.Till.Cart.{
  IsMilliCart, IsKeyed, total_of, add_to-IsMilliCart, add_to-IsKeyed, total_of-add_to, line_totals,
  total_of-bound,
}

-- Moves off the shelves of one outlet, at three decimals.
abbrev pub AreFrom : ℕ → List ShelfMove → Type 0
AreFrom l ms = All (λ m. (m.loc ≡ l) × IsMilli m.qty) ms

taken-AreFrom :
    (m : Master) (prices : Prices) (l pct : ℕ) (cart : Cart)
    → IsMilliCart cart
    → AreFrom l (map (move_of m prices l pct) (filter (moves_stock m prices l pct) cart))
taken-AreFrom m prices l pct [] h = tt
taken-AreFrom m prices l pct ((it, n) ∷ cart) (hn, h) = elim (Bool-cases (is_mto (m.items it))) [
  | inl made ↦ rw made (taken-AreFrom m prices l pct cart h)
  | inr shelf ↦
      rw shelf ((refl, sub-IsMilli (pos 0) n (refl, refl) hn), taken-AreFrom m prices l pct cart h)
]

pub plan_bill-AreFrom :
    (m : Master) (prices : Prices) (l pct : ℕ) (cart : Cart)
    → IsMilliCart cart
    → AreFrom l (plan_bill m prices l pct cart).moves
plan_bill-AreFrom m prices l pct cart h =
    rw (plan_bill_lem m prices l pct cart).1 (taken-AreFrom m prices l pct cart h)

pub took_from-IsKeyed :
    (took : Cart) (ms : List ShelfMove) → IsKeyed took → IsKeyed (took_from took ms)
unfolding took_from
took_from-IsKeyed took [] h = h
took_from-IsKeyed took (m ∷ ms) h =
    took_from-IsKeyed (add_to m.it (pos 0 -ℤ m.qty) took) ms (add_to-IsKeyed m.it _ took h)

negated : (q : ℤ) → IsMilli q → round3 (pos 0 -ℤ q) ≡ pos 0 -ℤ q
negated q h = round3_self (pos 0 -ℤ q) (sub-IsMilli (pos 0) q (refl, refl) h)

-- What the bill's moves take off a shelf is what the fold of them says.
took_from-moved :
    (num by l it : ℕ) (took : Cart) (ms : List ShelfMove)
    → IsMilliCart took
    → AreFrom l ms
    → total_of it (took_from took ms) +ℤ moved l it (stored (moves_for num by ms))
      ≡ total_of it took
unfolding took_from
took_from-moved num by l it took [] h from = omega int_laws
took_from-moved num by l it took (m ∷ ms) h ((at, exact), from) =
    let ih = parts_of_eq _ _ (
      took_from-moved num by l it (add_to m.it (pos 0 -ℤ m.qty) took) ms
        (add_to-IsMilliCart m.it _ took h) from) in
    let sum = parts_of_eq _ _ (total_of-add_to it m.it (pos 0 -ℤ m.qty) took h) in
    let here = (==_iff l l).1 refl in
    elim (Bool-cases (m.it == it)) [
      | inl e ↦
          let sum' : total_of it (add_to m.it (pos 0 -ℤ m.qty) took)
              ≡ total_of it took +ℤ (pos 0 -ℤ m.qty) =
            rw (total_of-add_to it m.it (pos 0 -ℤ m.qty) took h, e, negated m.qty exact) refl in
          rw (at, here, e, round3_self m.qty exact) (omega (int_laws, ih, parts_of_eq _ _ sum'))
      | inr e ↦
          let sum' : total_of it (add_to m.it (pos 0 -ℤ m.qty) took) ≡ total_of it took =
            rw (total_of-add_to it m.it (pos 0 -ℤ m.qty) took h, e) (omega int_laws) in
          rw (at, here, e) (omega (int_laws, ih, parts_of_eq _ _ sum'))
    ]

moved_elsewhere :
    (num by l other it : ℕ) (ms : List ShelfMove)
    → AreFrom l ms
    → (l == other) ≡ false
    → moved other it (stored (moves_for num by ms)) ≡ pos 0
moved_elsewhere num by l other it [] from e = refl
moved_elsewhere num by l other it (m ∷ ms) ((at, exact), from) e =
    rw (at, e) (moved_elsewhere num by l other it ms from e)

module _ (s : Store) (num by l : ℕ) (ms : List ShelfMove) (from : AreFrom l ms) where
  abbrev took : Cart
  took = took_from [] ms

  -- The store with the bill's moves posted.
  abbrev pub sold : Store
  sold = with_ledger (post_moves (moves_for num by ms) s.ledger) s

  took-moved : (it : ℕ) → moved l it (stored (moves_for num by ms)) ≡ pos 0 -ℤ total_of it took
  took-moved it = omega (int_laws, parts_of_eq _ _ (took_from-moved num by l it [] ms tt from))

  free_at-sold :
      IsCached s.ledger → (it : ℕ) → free_at sold l it ≡ free_at s l it -ℤ total_of it took
  unfolding reserved_at
  free_at-sold h it =
      let exact = on_hand-IsMilli s.ledger h l it in
      let after = (post_moves-IsCached (moves_for num by ms) s.ledger h).0 in
      let exact' = on_hand-IsMilli sold.ledger after l it in
      let row = (post_moves_on_hand (moves_for num by ms) s.ledger l it h).0 in
      let apart = round3-IsMilli (held s.rsv l it) in
      rw
        (
          round3_self _ (sub-IsMilli _ _ exact apart),
          round3_self _ (sub-IsMilli _ _ exact' apart),
          row,
          took-moved it,
        )
        (omega int_laws)

  still :
      (rest : Cart)
      → IsCached s.ledger
      → All (λ (k, n). total_of k took ≡ n) rest
      → is_covered s l rest ≡ true
      → is_still_covered sold l rest ≡ true
  unfolding is_covered is_still_covered
  still [] h sums fits = refl
  still ((k, n) ∷ rest) h (sum, sums) fits =
      let enough : n ≤ℤ free_at s l k = le_of_leb n (free_at s l k) (ground arith) in
      let left : pos 0 ≤ℤ free_at sold l k =
        rw (free_at-sold h k, sum) (omega (int_laws, enough)) in
      rw (leb_of_le (pos 0) (free_at sold l k) left) (still rest h sums (ground arith))

  -- The check with the moves posted can only repeat the check before them.
  pub is_covered-still :
      IsCached s.ledger → is_covered s l took ≡ true → is_still_covered sold l took ≡ true
  is_covered-still h fits = still took h (line_totals took (took_from-IsKeyed [] ms tt)) fits

  pub sold-IsCovered : IsCovered s → is_covered s l took ≡ true → IsCovered sold
  unfolding is_covered
  sold-IsCovered h fits = record {
    cached = (post_moves-IsCached (moves_for num by ms) s.ledger h.cached).0;
    holds = h.holds;
    covered = λ l' i.
        let before = h.covered l' i in
        let row = (post_moves_on_hand (moves_for num by ms) s.ledger l' i h.cached).0 in
        elim (Bool-cases (l == l')) [
          | inl e ↦
              let here : l ≡ l' = (==_iff l l').0 e in
              let free = parts_of_eq _ _ (free_at_lem s l i h) in
              let before' = h.covered l i in
              let room : total_of i took ≤ℤ free_at s l i =
                total_of-bound (free_at s l) took (took_from-IsKeyed [] ms tt) fits i
                  (omega (int_laws, before', free)) in
              rw (row, ← here, took-moved i) (omega (int_laws, room, free))
          | inr e ↦ rw (row, moved_elsewhere num by l l' i ms from e) (omega (int_laws, before))
        ];
    lines = h.lines;
    backed = h.backed;
  }
