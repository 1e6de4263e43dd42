-- ===== src/Ledger/Cache.antt =====
-- The balances as a cache of the moves: `postMoves` and `rebuildBalances` of
-- apps/api/src/lib/ledger.ts.
use rch.Prelude.{
  ◌∙◌, sym, ℕ, ◌≡◌, refl, ap, Bool, true, false, ◌||◌, Option, none, some, List, [], ◌∷◌, ◌++◌,
  arith, if◌then◌else◌, Bool-cases, inl, inr, any, filter, All, All-append, ℤ, pos, ◌+ℤ◌, ◌==ℤ◌,
  int_laws, round3, round3_self, round3-IsMilli, IsMilli, add-IsMilli, sum_of-append,
}
use rch.Catalog.{or_zero}
use rch.Ledger.{
  is_cell, lock_balances, Move, Ledger, real, at_cell, delta_from, stored, post_moves, moved,
  rebuild_balances, zeroed,
}

pub round3_shift : (a x : ℤ) → IsMilli a → round3 (a +ℤ x) ≡ a +ℤ round3 x
unfolding round3 ◌+ℤ◌
round3_shift a x h = ground arith

any-append : (p : Move → Bool) (xs ys : List Move) → any p (xs ++ ys) ≡ (any p xs || any p ys)
any-append p [] ys = refl
any-append p (x ∷ xs) ys = rw (any-append p xs ys) (ground arith)

filter-append :
    (p : Move → Bool) (xs ys : List Move) → filter p (xs ++ ys) ≡ filter p xs ++ filter p ys
filter-append p [] ys = refl
filter-append p (x ∷ xs) ys = elim (Bool-cases (p x)) [
  | inl e ↦ rw (e, filter-append p xs ys) refl
  | inr e ↦ rw (e, filter-append p xs ys) refl
]

pub moved-append :
    (l i : ℕ) (xs ys : List Move) → moved l i (xs ++ ys) ≡ moved l i xs +ℤ moved l i ys
moved-append l i xs ys =
    rw (filter-append (at_cell l i) xs ys)
      (sum_of-append (λ m. m.qty) (filter (at_cell l i) xs) (filter (at_cell l i) ys))

any-stored : (l i : ℕ) (rs : List Move) → any (at_cell l i) (stored rs) ≡ any (at_cell l i) rs
any-stored l i [] = refl
any-stored l i (m ∷ ms) = rw (any-stored l i ms) refl

delta_from_lem :
    (acc : ℤ) (l i : ℕ) (rs : List Move)
    → IsMilli acc
    → delta_from acc l i rs ≡ acc +ℤ moved l i (stored rs)
unfolding delta_from
delta_from_lem acc l i [] h = omega int_laws
delta_from_lem acc l i (m ∷ ms) h = elim (Bool-cases (at_cell l i m)) [
  | inl e ↦
      rw
        (
          e,
          delta_from_lem (round3 (acc +ℤ m.qty)) l i ms (round3-IsMilli (acc +ℤ m.qty)),
          round3_shift acc m.qty h,
        )
        (omega int_laws)
  | inr e ↦ rw (e, delta_from_lem acc l i ms h) refl
]

untouched : (l i : ℕ) (ms : List Move) → any (at_cell l i) ms ≡ false → moved l i ms ≡ pos 0
untouched l i [] h = refl
untouched l i (m ∷ ms) h = elim (Bool-cases (at_cell l i m)) [
  | inl e ↦ ground arith
  | inr e ↦ rw e (untouched l i ms (ground arith))
]

pub stored-IsMilli : (ms : List Move) → All (λ m. IsMilli m.qty) (stored ms)
stored-IsMilli [] = tt
stored-IsMilli (m ∷ ms) = (round3-IsMilli m.qty, stored-IsMilli ms)

pub moved-IsMilli :
    (l i : ℕ) (ms : List Move) → All (λ m. IsMilli m.qty) ms → IsMilli (moved l i ms)
moved-IsMilli l i [] h = (refl, refl)
moved-IsMilli l i (m ∷ ms) (hm, hs) = elim (Bool-cases (at_cell l i m)) [
  | inl e ↦ rw e (add-IsMilli m.qty (moved l i ms) hm (moved-IsMilli l i ms hs))
  | inr e ↦ rw e (moved-IsMilli l i ms hs)
]

-- The balances are what a rebuild from the moves would make of them.
pub record IsCached (s : Ledger) : Type 0 where
  pub cached : (l i : ℕ) → (rebuild_balances s).balances l i ≡ s.balances l i
  pub decimals : All (λ m. IsMilli m.qty) s.moves

or_zero-zeroed : (o : Option ℤ) → zeroed o ≡ o → or_zero o ≡ pos 0
or_zero-zeroed none h = refl
or_zero-zeroed (some q) h = cc

pub on_hand_moved :
    (s : Ledger) → IsCached s → (l i : ℕ) → or_zero (s.balances l i) ≡ moved l i s.moves
unfolding rebuild_balances
on_hand_moved s h l i =
    let row = h.cached l i in
    elim (Bool-cases (any (at_cell l i) s.moves)) [
      | inl e ↦
          let exact = round3_self (moved l i s.moves) (moved-IsMilli l i s.moves h.decimals) in
          rw (← row, e) exact
      | inr e ↦
          let kept : zeroed (s.balances l i) ≡ s.balances l i =
            rw
              (← ap (λ t. if t then some (round3 (moved l i s.moves)) else zeroed (s.balances l i))
                e)
              row in
          rw (untouched l i s.moves e) (or_zero-zeroed (s.balances l i) kept)
    ]

or_true : (b : Bool) → (b || true) ≡ true
or_true true = refl
or_true false = refl

or_false : (b : Bool) → (b || false) ≡ b
or_false true = refl
or_false false = refl

locked_row : (b : Bool) (o : Option ℤ) → or_zero (if b then some (or_zero o) else o) ≡ or_zero o
locked_row true o = refl
locked_row false o = refl

-- A lock on balances changes what no cell holds, and keeps them what a rebuild would make of them.
pub lock_balances-IsCached :
    (cells : List (ℕ × ℕ)) (s : Ledger)
    → IsCached s
    → IsCached (lock_balances cells s)
      × ((l i : ℕ) → or_zero ((lock_balances cells s).balances l i) ≡ or_zero (s.balances l i))
unfolding lock_balances rebuild_balances
lock_balances-IsCached cells s h = (
  record {
    cached = λ l i. elim (Bool-cases (any (is_cell l i) cells)) [
      | inr free ↦ rw free (h.cached l i)
      | inl locked ↦ elim (Bool-cases (any (at_cell l i) s.moves)) [
        | inl e ↦
            let row : some (round3 (moved l i s.moves)) ≡ s.balances l i =
              rw (← h.cached l i, e) refl in
            rw (locked, e, ← row) refl
        | inr e ↦
            let kept : zeroed (s.balances l i) ≡ s.balances l i =
              ap (λ b. if b then some (round3 (moved l i s.moves)) else zeroed (s.balances l i))
                (sym e)
              ∙ h.cached l i in
            rw (locked, e, or_zero-zeroed (s.balances l i) kept) refl
      ]
    ];
    decimals = h.decimals;
  },
  λ l i. locked_row (any (is_cell l i) cells) (s.balances l i),
)

post_moves_cached :
    (batch : List Move) (s : Ledger)
    → IsCached s
    → (l i : ℕ)
    → (rebuild_balances (post_moves batch s)).balances l i ≡ (post_moves batch s).balances l i
unfolding rebuild_balances post_moves
post_moves_cached batch s h l i =
    let rs = real batch in
    let sum : moved l i (s.moves ++ stored rs) ≡ moved l i s.moves +ℤ moved l i (stored rs) =
      moved-append l i s.moves (stored rs) in
    let touched : any (at_cell l i) (s.moves ++ stored rs)
        ≡ (any (at_cell l i) s.moves || any (at_cell l i) rs) =
      rw (any-append (at_cell l i) s.moves (stored rs), any-stored l i rs) refl in
    elim (Bool-cases (any (at_cell l i) rs)) [
      | inl e ↦
          let figure : moved l i (s.moves ++ stored rs)
              ≡ or_zero (s.balances l i) +ℤ delta_from (pos 0) l i rs =
            rw (sum, on_hand_moved s h l i, delta_from_lem (pos 0) l i rs (refl, refl))
              (omega int_laws) in
          rw (touched, e, or_true (any (at_cell l i) s.moves), figure) refl
      | inr e ↦
          let nothing : moved l i (stored rs) ≡ pos 0 =
            untouched l i (stored rs) (rw (any-stored l i rs) e) in
          let same : moved l i (s.moves ++ stored rs) ≡ moved l i s.moves =
            rw (sum, nothing) (omega int_laws) in
          rw (touched, e, or_false (any (at_cell l i) s.moves), same) (h.cached l i)
    ]

post_moves_kept : (batch : List Move) (s : Ledger) → IsCached s → IsCached (post_moves batch s)
unfolding post_moves
post_moves_kept batch s h = record {
  cached = post_moves_cached batch s h;
  decimals = All-append (λ m. IsMilli m.qty) s.moves _ h.decimals (stored-IsMilli (real batch));
}

-- Posting any batch of moves to a ledger whose balances are what a rebuild would make of them, in
-- three decimals, gives another such ledger, whatever the decimals of the batch. In it every
-- balance is the sum of the moves that are stored for its cell.
pub post_moves-IsCached :
    (batch : List Move) (s : Ledger)
    → IsCached s
    → IsCached (post_moves batch s)
      × ((l i : ℕ)
          → or_zero ((post_moves batch s).balances l i) ≡ moved l i (post_moves batch s).moves)
post_moves-IsCached batch s h =
    let after = post_moves_kept batch s h in
    (after, λ l i. on_hand_moved (post_moves batch s) after l i)

pub zero_of : (v : ℤ) → (v ==ℤ pos 0) ≡ true → v ≡ pos 0
zero_of v h = ground arith

pub moved-real : (l i : ℕ) (ms : List Move) → moved l i (stored (real ms)) ≡ moved l i (stored ms)
unfolding real
moved-real l i [] = refl
moved-real l i (m ∷ ms) = elim (Bool-cases (round3 m.qty ==ℤ pos 0)) [
  | inl e ↦ elim (Bool-cases (at_cell l i m)) [
    | inl a ↦ rw (e, a, zero_of (round3 m.qty) e, moved-real l i ms) (omega int_laws)
    | inr a ↦ rw (e, a, moved-real l i ms) refl
  ]
  | inr e ↦ elim (Bool-cases (at_cell l i m)) [
    | inl a ↦ rw (e, a, moved-real l i ms) refl
    | inr a ↦ rw (e, a, moved-real l i ms) refl
  ]
]

-- Posting a batch takes the balance of a cell from what it was to what it was and the batch's
-- quantities for the cell, each at three decimals, and leaves a cell that only crumbs touch as it
-- was, its row included.
pub post_moves_on_hand :
    (batch : List Move) (s : Ledger) (l i : ℕ)
    → IsCached s
    → (or_zero ((post_moves batch s).balances l i)
        ≡ or_zero (s.balances l i) +ℤ moved l i (stored batch))
      × (any (at_cell l i) (real batch) ≡ false
          → (post_moves batch s).balances l i ≡ s.balances l i)
unfolding post_moves
post_moves_on_hand batch s l i h =
    let figure : or_zero ((post_moves batch s).balances l i)
        ≡ moved l i (s.moves ++ stored (real batch)) =
      on_hand_moved (post_moves batch s) (post_moves_kept batch s h) l i in
    (
      rw
          (
            figure,
            moved-append l i s.moves (stored (real batch)),
            moved-real l i batch,
            on_hand_moved s h l i,
          )
          refl,
      λ e. rw e refl,
    )
