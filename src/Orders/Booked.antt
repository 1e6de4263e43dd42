-- ===== src/Orders/Booked.antt =====
-- What a delivery puts on the shelves: `receive` of apps/api/src/modules/grn/service.ts.
use rch.Prelude.{ℕ, ◌&&◌, List, [], ◌∷◌, ◌==◌, if◌then◌else◌, ℤ, pos, ◌+ℤ◌}
use rch.Purchasing.Receipt.{ReceiptCheckInput}
use rch.Orders.{PoLine}
use rch.Orders.Booking.{arrived}

-- What the lines of an item come to, over those on which something arrived.
unfoldable pub arrival : (ReceiptCheckInput → ℤ) → ℕ → List PoLine → List ReceiptCheckInput → ℤ
arrival f it [] rs = pos 0
arrival f it (l ∷ ls) [] = pos 0
arrival f it (l ∷ ls) (r ∷ rs) =
    let rest = arrival f it ls rs in if arrived r && (l.it == it) then f r +ℤ rest else rest
