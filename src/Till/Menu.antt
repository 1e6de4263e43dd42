-- ===== src/Till/Menu.antt =====
-- What an outlet can sell right now: `sellableAt`, `menuOf`, `assertSellable` and `cartOf` of
-- apps/api/src/lib/sale.ts.
use rch.Prelude.{
  ℕ, Bool, true, ◌&&◌, ◌||◌, none, some, List, [], ◌∷◌, ◌==◌, if◌then◌else◌, any, is_some, ℤ, pos,
  ◌+ℤ◌, ltb_ℤ, leb_ℤ, round3, ok, guard, ◌>>◌,
}
use rch.Catalog.{Master, StockMap, RsvMap, OvrMap, Prices, avail, kitchen_key}
use rch.Reservations.{Reservation, reserved_at, open_at}
use rch.Billing.{Cart, is_mto, list_of, avail_of, price_of}
use rch.Billing.Shelf.{is_available}
use rch.Till.{Till, TillResult, no_list, no_item, not_listed, not_available, only_left, no_price}

-- Everything that a sale reads about one outlet.
pub record Sellable : Type 0 where
  pub loc : ℕ
  pub master : Master
  pub menu : List ℕ
  pub stock : StockMap
  pub rsv : RsvMap
  pub ovr : OvrMap
  pub prices : Prices

-- The open holds, by item: a group for every item that has one.
abbrev pub held_map : List Reservation → ℕ → RsvMap
held_map rsv loc l it =
    if (l == loc) && any (open_at l it) rsv then some (reserved_at rsv l it) else none

unfoldable pub sellable_at : Till → ℕ → Sellable
sellable_at s loc = record {
  loc = loc;
  master = s.store.master;
  menu = s.menu loc;
  stock = λ l it. if l == loc then s.store.ledger.balances l it else none;
  rsv = held_map s.store.rsv loc;
  ovr = λ l it. if (l == loc) || (l == kitchen_key) then s.ovr l it else none;
  prices = s.prices;
}

-- A made-to-order item is not capped.
pub data Units : Type 0 where
  unlimited : Units
  units : ℤ → Units

unfoldable pub cover_of : Sellable → ℕ → Units
cover_of s it =
    if is_mto (s.master.items it) then unlimited else units (avail s.stock s.rsv s.loc it)

-- `cover >= qty`
abbrev pub covers : Units → ℤ → Bool
covers unlimited q = true
covers (units u) q = leb_ℤ q u

pub record SellableLine : Type 0 where
  pub it : ℕ
  pub price : ℤ
  pub available : Bool
  pub cover : Units

abbrev pub line_for : Sellable → ℕ → SellableLine
line_for s it =
    let price = (price_of s.master s.prices s.loc it).p in
    record {
      it = it;
      price = price;
      available =
          is_available (avail_of s.master s.stock s.rsv s.ovr s.loc it) && ltb_ℤ (pos 0) price;
      cover = cover_of s it;
    }

abbrev pub lines_for : Sellable → List ℕ → List SellableLine
lines_for s [] = []
lines_for s (it ∷ its) =
    let rest = lines_for s its in if is_some (s.master.items it) then line_for s it ∷ rest else rest

-- The lines of the menu, in the order of its rows: the sort by name is for the reader.
unfoldable pub menu_of : Sellable → List SellableLine
menu_of s = lines_for s s.menu

abbrev pub listed : List ℕ → ℕ → Bool
listed menu it = any (λ k. k == it) menu

-- One turn of the loop.
unfoldable pub assert_item : Sellable → ℕ × ℤ → TillResult (Unit {0})
assert_item s (it, n) = do
  guard (is_some (s.master.items it)) (no_item it)
  guard (listed s.menu it) (not_listed it)
  guard (is_available (avail_of s.master s.stock s.rsv s.ovr s.loc it)) (not_available it)
  guard (covers (cover_of s it) n) (only_left it)
  guard (ltb_ℤ (pos 0) (price_of s.master s.prices s.loc it).p) (no_price it)

unfoldable pub assert_items : Sellable → Cart → TillResult (Unit {0})
assert_items s [] = ok tt
assert_items s (line ∷ cart) = do assert_item s line; assert_items s cart

unfoldable pub assert_sellable : Sellable → Cart → TillResult (Unit {0})
assert_sellable s cart = do
  guard (is_some (list_of (s.master.locations s.loc))) no_list
  assert_items s cart

-- `cart[it] = round3((cart[it] ?? 0) + qty)`; a key keeps the place of its first line.
unfoldable pub add_to : ℕ → ℤ → Cart → Cart
add_to it q [] = (it, round3 (pos 0 +ℤ q)) ∷ []
add_to it q ((k, n) ∷ cart) =
    let rest = add_to it q cart in if k == it then (k, round3 (n +ℤ q)) ∷ cart else (k, n) ∷ rest

unfoldable pub cart_from : Cart → List (ℕ × ℤ) → Cart
cart_from cart [] = cart
cart_from cart ((it, q) ∷ lines) = cart_from (add_to it q cart) lines

unfoldable pub cart_of : List (ℕ × ℤ) → Cart
cart_of lines = cart_from [] lines
