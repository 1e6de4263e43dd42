-- ===== src/Ledger.antt =====
-- The ledger, apps/api/src/lib/ledger.ts: the moves of stock, and the balances that cache them.
pub mod Cache
mod Tests
use rch.Prelude.{
  ℕ, Bool, true, false, ◌&&◌, not, Option, none, some, List, [], ◌∷◌, ◌++◌, ◌==◌, if◌then◌else◌,
  any, filter, ℤ, pos, ◌+ℤ◌, ◌-ℤ◌, ◌==ℤ◌, ltb_ℤ, round3, sum_of,
}
use rch.Catalog.{Item, ItemType, StockMap, or_zero, used_on_arrival}

pub data MoveKind : Type 0 where
  opening sale ticket_out ticket_in production_consume production_yield : MoveKind
  grn_accept grn_reject adjustment reversal : MoveKind

-- `refType` of a move: "bill", "ticket" or "grn".
abbrev pub bill_ref : ℕ
bill_ref = 1

abbrev pub ticket_ref : ℕ
ticket_ref = 2

abbrev pub grn_ref : ℕ
grn_ref = 3

-- `ref_type` and `ref_id` are the document behind the move, `reverses` the move that this one
-- undoes. The instant of a move is left out.
pub record Move : Type 0 where
  pub loc : ℕ
  pub it : ℕ
  pub qty : ℤ
  pub kind : MoveKind
  pub ref_type : ℕ
  pub ref_id : ℕ
  pub by : Option ℕ
  pub reverses : Option ℕ

-- The append-only moves, and the balance rows: location, then item.
pub record Ledger : Type 0 where
  pub moves : List Move
  pub balances : StockMap

abbrev pub with_qty : Move → ℤ → Move
with_qty m q = record {
  loc = m.loc;
  it = m.it;
  qty = q;
  kind = m.kind;
  ref_type = m.ref_type;
  ref_id = m.ref_id;
  by = m.by;
  reverses = m.reverses;
}

abbrev pub consumed : Move → Move
consumed m = record {
  loc = m.loc;
  it = m.it;
  qty = pos 0 -ℤ m.qty;
  kind = production_consume;
  ref_type = m.ref_type;
  ref_id = m.ref_id;
  by = m.by;
  reverses = m.reverses;
}

abbrev pub is_used : Option Item → Move → Bool
is_used none m = false
is_used (some item) m = ltb_ℤ (pos 0) m.qty && used_on_arrival item.t m.loc

unfoldable pub with_use_on_arrival : (ℕ → Option Item) → List Move → List Move
with_use_on_arrival items [] = []
with_use_on_arrival items (m ∷ ms) =
    if is_used (items m.it) m
    then m ∷ consumed m ∷ with_use_on_arrival items ms
    else m ∷ with_use_on_arrival items ms

-- The moves that do not round away to nothing.
unfoldable pub real : List Move → List Move
real moves = filter (λ m. not (round3 m.qty ==ℤ pos 0)) moves

abbrev pub at_cell : ℕ → ℕ → Move → Bool
at_cell l i m = (m.loc == l) && (m.it == i)

-- What the batch adds to one cell, rounded at every step.
unfoldable pub delta_from : ℤ → ℕ → ℕ → List Move → ℤ
delta_from acc l i [] = acc
delta_from acc l i (m ∷ ms) =
    let taken = delta_from (round3 (acc +ℤ m.qty)) l i ms in
    let passed = delta_from acc l i ms in if at_cell l i m then taken else passed

-- The row as it is stored: the quantity at three decimals.
abbrev pub stored : List Move → List Move
stored [] = []
stored (m ∷ ms) = with_qty m (round3 m.qty) ∷ stored ms

-- A cell of the balances that a surviving move touches has its row made where there is none, and updated.
unfoldable pub post_moves : List Move → Ledger → Ledger
unfolding real delta_from
post_moves batch s =
    let rs = real batch in
    record {
      moves = s.moves ++ stored rs;
      balances = λ l i.
          if any (at_cell l i) rs
          then some (round3 (or_zero (s.balances l i) +ℤ delta_from (pos 0) l i rs))
          else s.balances l i;
    }

abbrev pub is_cell : ℕ → ℕ → ℕ × ℕ → Bool
is_cell l i (loc, it) = (loc == l) && (it == i)

-- A cell that is locked and has no row gets one of zero.
unfoldable pub lock_balances : List (ℕ × ℕ) → Ledger → Ledger
lock_balances cells s = record {
  moves = s.moves;
  balances =
      λ l i. if any (is_cell l i) cells then some (or_zero (s.balances l i)) else s.balances l i;
}

abbrev pub zeroed : Option ℤ → Option ℤ
zeroed none = none
zeroed (some q) = some (pos 0)

-- What the moves of a cell come to.
abbrev pub moved : ℕ → ℕ → List Move → ℤ
moved l i moves = sum_of (λ m. m.qty) (filter (at_cell l i) moves)

-- Every row that is there goes to zero, and every cell with a move gets their sum.
unfoldable pub rebuild_balances : Ledger → Ledger
rebuild_balances s = record {
  moves = s.moves;
  balances = λ l i.
      if any (at_cell l i) s.moves
      then some (round3 (moved l i s.moves))
      else zeroed (s.balances l i);
}
