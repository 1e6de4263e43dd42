-- ===== src/Reservations.antt =====
-- Holds on stock that stands where it is: apps/api/src/lib/reservations.ts.
pub mod Held
use rch.Prelude.{
  ℕ, Bool, true, false, ◌&&◌, not, List, [], ◌∷◌, ◌++◌, ◌==◌, if◌then◌else◌, filter, ℤ, pos, ◌+ℤ◌,
  round3, sum_of,
}
use rch.Ledger.{Ledger, lock_balances}

-- A row is open as long as it is not released.
pub record Reservation : Type 0 where
  pub loc : ℕ
  pub it : ℕ
  pub qty : ℤ
  pub ticket : ℕ
  pub released : Bool

pub record ReservationRow : Type 0 where
  pub loc : ℕ
  pub it : ℕ
  pub qty : ℤ
  pub ticket_id : ℕ

abbrev pub held_row : ReservationRow → Reservation
held_row r = record {
  loc = r.loc;
  it = r.it;
  qty = round3 r.qty;
  ticket = r.ticket_id;
  released = false;
}

abbrev pub held_rows : List ReservationRow → List Reservation
held_rows [] = []
held_rows (r ∷ rs) = held_row r ∷ held_rows rs

abbrev pub cells_of : List ReservationRow → List (ℕ × ℕ)
cells_of [] = []
cells_of (r ∷ rs) = (r.loc, r.it) ∷ cells_of rs

-- The balances of the rows are locked before the holds are put down.
unfoldable pub reserve : Ledger → List Reservation → List ReservationRow → Ledger × List Reservation
reserve ledger rsv rows = (lock_balances (cells_of rows) ledger, rsv ++ held_rows rows)

abbrev pub let_go : ℕ → Reservation → Reservation
let_go id r =
    if r.ticket == id
    then record { loc = r.loc; it = r.it; qty = r.qty; ticket = r.ticket; released = true }
    else r

unfoldable pub release_for_ticket : ℕ → List Reservation → List Reservation
release_for_ticket id [] = []
release_for_ticket id (r ∷ rs) = let_go id r ∷ release_for_ticket id rs

abbrev pub open_at : ℕ → ℕ → Reservation → Bool
open_at l i r = ((r.loc == l) && (r.it == i)) && not r.released

-- `reservedAt`, for one item.
unfoldable pub reserved_at : List Reservation → ℕ → ℕ → ℤ
reserved_at rsv l i = round3 (sum_of (λ r. r.qty) (filter (open_at l i) rsv))
