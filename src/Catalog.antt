-- ===== src/Catalog.antt =====
-- The master data: `ItemSchema` and `LocationSchema` of packages/contract/src/schemas/documents.ts,
-- the maps of packages/domain/src/master.ts, and the rules that read an item's type. Item keys,
-- location keys and price-list ids are only compared, so they are naturals, with the three
-- locations that the code names in front.
use rch.Prelude.{
  ℕ, ◌≡◌, Bool, true, false, ◌&&◌, ◌||◌, Option, none, some, ◌==◌, ℤ, pos, ◌-ℤ◌, arith,
}
use rch.Workflow.Table.{Coded}

pub data ItemType : Type 0 where
  raw pack mrp_good fg mto : ItemType

abbrev pub item_type_code : ItemType → ℕ
item_type_code raw = 0
item_type_code pack = 1
item_type_code mrp_good = 2
item_type_code fg = 3
item_type_code mto = 4

pub item_type_code_inj : (a b : ItemType) → item_type_code a ≡ item_type_code b → a ≡ b
item_type_code_inj a b h = ground arith

instance abbrev pub item_type_coded : Coded ItemType
item_type_coded = record { code = item_type_code; code_inj = item_type_code_inj }

pub data Source : Type 0 where
  store_source kitchen_source : Source

-- An item, as far as the rules read it; `gst` is a percentage in billionths.
pub record Item : Type 0 where
  pub t : ItemType
  pub gst : ℕ
  pub mrp : Option ℤ
  pub src : Option Source

pub data LocationType : Type 0 where
  store_type kitchen_type outlet_type : LocationType

-- A location, as far as the rules read it.
pub record Location : Type 0 where
  pub type : LocationType
  pub list : Option ℕ
  pub active : Bool

abbrev pub store_key : ℕ
store_key = 0

abbrev pub kitchen_key : ℕ
kitchen_key = 1

abbrev pub quarantine_key : ℕ
quarantine_key = 2

pub record Master : Type 0 where
  pub items : ℕ → Option Item
  pub locations : ℕ → Option Location

-- Location, then item; a key that is not there reads as nothing.
abbrev pub StockMap : Type 0
StockMap = ℕ → ℕ → Option ℤ

abbrev pub RsvMap : Type 0
RsvMap = ℕ → ℕ → Option ℤ

-- Location, then item, to the reason.
abbrev pub OvrMap : Type 0
OvrMap = ℕ → ℕ → Option ℕ

abbrev pub Prices : Type 0
Prices = ℕ → ℕ → Option ℤ

abbrev pub or_zero : Option ℤ → ℤ
or_zero none = pos 0
or_zero (some q) = q

unfoldable pub qty : StockMap → ℕ → ℕ → ℤ
qty stock l it = or_zero (stock l it)

unfoldable pub resv : RsvMap → ℕ → ℕ → ℤ
resv rsv l it = or_zero (rsv l it)

unfoldable pub avail : StockMap → RsvMap → ℕ → ℕ → ℤ
unfolding qty resv
avail stock rsv l it = qty stock l it -ℤ resv rsv l it

-- kitchen.ts: used the moment it lands.
unfoldable pub used_on_arrival : ItemType → ℕ → Bool
used_on_arrival t loc = (loc == kitchen_key) && ((item_type_code t == 0) || (item_type_code t == 1))

abbrev is_kitchen_source : Option Source → Bool
is_kitchen_source (some kitchen_source) = true
is_kitchen_source _ = false

unfoldable pub is_on_off : Option Item → Bool
is_on_off none = false
is_on_off (some item) = (item_type_code item.t == 4) && is_kitchen_source item.src

unfoldable pub is_kitchen_made : Option Item → Bool
unfolding is_on_off
is_kitchen_made none = false
is_kitchen_made (some item) = (item_type_code item.t == 3) || is_on_off (some item)

-- routing.ts
unfoldable pub default_source_for : ItemType → Source
default_source_for fg = kitchen_source
default_source_for t = store_source

abbrev source_or : Option Source → Source → Source
source_or none d = d
source_or (some s) d = s

unfoldable pub source_of : Item → Source
unfolding default_source_for
source_of item = source_or item.src (default_source_for item.t)

-- purchasing.ts and items.ts
unfoldable pub is_purchased : ItemType → Bool
is_purchased t = (item_type_code t == 0) || (item_type_code t == 1) || (item_type_code t == 2)

unfoldable pub is_sellable : ItemType → Bool
is_sellable t = (item_type_code t == 2) || (item_type_code t == 3) || (item_type_code t == 4)
