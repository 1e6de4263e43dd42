-- ===== src/Ledger/Tests.antt =====
-- The theorems on the ledger at a concrete batch.
use rch.Prelude.{
  ℕ, ◌≡◌, refl, false, none, some, List, [], ◌∷◌, any, ◌*◌, ℤ, pos, ◌+ℤ◌, ◌-ℤ◌, round3, one,
}
use rch.Catalog.{or_zero}
use rch.Ledger.{Move, Ledger, sale, real, stored, at_cell, moved, post_moves, rebuild_balances}
use rch.Ledger.Cache.{IsCached, post_moves-IsCached, post_moves_on_hand}

abbrev move : ℤ → Move
move q = record {
  loc = 5;
  it = 1;
  qty = q;
  kind = sale;
  ref_type = 2;
  ref_id = 9;
  by = some 3;
  reverses = none;
}

abbrev empty : Ledger
empty = record { moves = []; balances = λ l i. none }

-- Three in, one and a crumb out.
abbrev batch : List Move
batch = move (pos (3 * one)) ∷ move (pos 0 -ℤ pos one) ∷ move (pos 300_000) ∷ []

empty-IsCached : IsCached empty
unfolding rebuild_balances
empty-IsCached = record { cached = λ l i. refl; decimals = tt }

post_moves-IsCached_example :
    IsCached (post_moves batch empty)
    × ((l i : ℕ)
        → or_zero ((post_moves batch empty).balances l i)
          ≡ moved l i (post_moves batch empty).moves)
post_moves-IsCached_example = post_moves-IsCached batch empty empty-IsCached

post_moves_on_hand_example :
    (or_zero ((post_moves batch empty).balances 5 1) ≡ pos 0 +ℤ moved 5 1 (stored batch))
    × (any (at_cell 5 1) (real batch) ≡ false → (post_moves batch empty).balances 5 1 ≡ none)
post_moves_on_hand_example = post_moves_on_hand batch empty 5 1 empty-IsCached

-- Two units are left on the shelf.
two_left : (post_moves batch empty).balances 5 1 ≡ some (pos (2 * one))
unfolding post_moves round3 ◌+ℤ◌ ◌-ℤ◌
two_left = refl
