-- ===== src/Access/Catalogue.antt =====
-- The catalogue of packages/domain/src/permissions.ts: each feature's scope and the desks that may be
-- given each level, and the three actions. Labels and sections are words only.
use rch.Prelude.{Option, none, some, List, [], ◌∷◌}
use rch.Access.Names.{
  Role, Feature, Level, Action, counter, manager, store, prod, buyer, view, edit, void_bill,
  void_settlement, all_outlets, billing, x_report, z_report, shift_reports, credit, settlements,
  qr_orders, approvals, items_stock, menu, prices, availability, item_photos, outlet_stock,
  outlet_requests, outlet_tickets, issue_desk, store_requisitions, store_stock, store_reports,
  adjustments, goods_receipt, kitchen_orders, make_distribute, kitchen_requests, kitchen_tickets,
  kitchen_stock, requisitions, procurement_list, purchase_orders, rate_contracts, vendors,
  item_master, new_products, inventory, stock_ledger,
}

pub data Scope : Type 0 where
  wide local : Scope

abbrev pub all_desks : List Role
all_desks = counter ∷ manager ∷ store ∷ prod ∷ buyer ∷ []

-- Every feature, in the order the role editor lists them.
abbrev pub all_features : List Feature
all_features =
    billing ∷ x_report ∷ z_report ∷ shift_reports ∷ credit ∷ settlements ∷ qr_orders ∷ approvals
    ∷ items_stock ∷ menu ∷ prices ∷ availability ∷ item_photos ∷ outlet_stock ∷ outlet_requests
    ∷ outlet_tickets ∷ issue_desk ∷ store_requisitions ∷ store_stock ∷ store_reports ∷ adjustments
    ∷ goods_receipt ∷ kitchen_orders ∷ make_distribute ∷ kitchen_requests ∷ kitchen_tickets
    ∷ kitchen_stock ∷ requisitions ∷ procurement_list ∷ purchase_orders ∷ rate_contracts ∷ vendors
    ∷ item_master ∷ new_products ∷ inventory ∷ stock_ledger ∷ []

unfoldable pub scope_of : Feature → Scope
scope_of billing = local
scope_of x_report = local
scope_of z_report = local
scope_of shift_reports = wide
scope_of credit = wide
scope_of settlements = wide
scope_of qr_orders = local
scope_of approvals = wide
scope_of items_stock = wide
scope_of menu = wide
scope_of prices = wide
scope_of availability = local
scope_of item_photos = local
scope_of outlet_stock = local
scope_of outlet_requests = local
scope_of outlet_tickets = local
scope_of issue_desk = local
scope_of store_requisitions = local
scope_of store_stock = local
scope_of store_reports = local
scope_of adjustments = local
scope_of goods_receipt = local
scope_of kitchen_orders = local
scope_of make_distribute = local
scope_of kitchen_requests = local
scope_of kitchen_tickets = local
scope_of kitchen_stock = local
scope_of requisitions = wide
scope_of procurement_list = wide
scope_of purchase_orders = wide
scope_of rate_contracts = wide
scope_of vendors = wide
scope_of item_master = local
scope_of new_products = wide
scope_of inventory = wide
scope_of stock_ledger = wide

-- `FEATURES[f].levels[l]`: the desks that may be given the level; `none` is an absent key.
unfoldable pub levels : Feature → Level → Option (List Role)
levels billing view = some (counter ∷ manager ∷ [])
levels billing edit = some (counter ∷ [])
levels x_report view = some (counter ∷ manager ∷ [])
levels x_report edit = none
levels z_report view = some (counter ∷ manager ∷ [])
levels z_report edit = some (counter ∷ manager ∷ [])
levels shift_reports view = some (counter ∷ manager ∷ [])
levels shift_reports edit = none
levels credit view = some all_desks
levels credit edit = some all_desks
levels settlements view = some all_desks
levels settlements edit = some all_desks
levels qr_orders view = some (counter ∷ manager ∷ [])
levels qr_orders edit = some (counter ∷ manager ∷ [])
levels approvals view = some all_desks
levels approvals edit = some all_desks
levels items_stock view = some all_desks
levels items_stock edit = some all_desks
levels menu view = some all_desks
levels menu edit = some all_desks
levels prices view = some all_desks
levels prices edit = some all_desks
levels availability view = none
levels availability edit = some (counter ∷ manager ∷ prod ∷ [])
levels item_photos view = none
levels item_photos edit = some (counter ∷ manager ∷ [])
levels outlet_stock view = some (counter ∷ [])
levels outlet_stock edit = some (counter ∷ [])
levels outlet_requests view = some (counter ∷ [])
levels outlet_requests edit = some (counter ∷ [])
levels outlet_tickets view = some (counter ∷ [])
levels outlet_tickets edit = some (counter ∷ [])
levels issue_desk view = some (store ∷ [])
levels issue_desk edit = some (store ∷ [])
levels store_requisitions view = some (store ∷ [])
levels store_requisitions edit = some (store ∷ [])
levels store_stock view = some (store ∷ [])
levels store_stock edit = none
levels store_reports view = some (store ∷ [])
levels store_reports edit = none
levels adjustments view = some (store ∷ prod ∷ [])
levels adjustments edit = some (store ∷ prod ∷ [])
levels goods_receipt view = none
levels goods_receipt edit = some (store ∷ buyer ∷ [])
levels kitchen_orders view = some (prod ∷ [])
levels kitchen_orders edit = some (prod ∷ [])
levels make_distribute view = some (prod ∷ [])
levels make_distribute edit = some (prod ∷ [])
levels kitchen_requests view = some (prod ∷ [])
levels kitchen_requests edit = some (prod ∷ [])
levels kitchen_tickets view = some (prod ∷ [])
levels kitchen_tickets edit = some (prod ∷ [])
levels kitchen_stock view = some (prod ∷ [])
levels kitchen_stock edit = none
levels requisitions view = some all_desks
levels requisitions edit = some all_desks
levels procurement_list view = some all_desks
levels procurement_list edit = some all_desks
levels purchase_orders view = some all_desks
levels purchase_orders edit = some all_desks
levels rate_contracts view = some all_desks
levels rate_contracts edit = some all_desks
levels vendors view = some all_desks
levels vendors edit = some all_desks
levels item_master view = none
levels item_master edit = some (store ∷ prod ∷ buyer ∷ [])
levels new_products view = some (store ∷ buyer ∷ [])
levels new_products edit = some (store ∷ buyer ∷ [])
levels inventory view = some all_desks
levels inventory edit = none
levels stock_ledger view = some all_desks
levels stock_ledger edit = none

-- The feature that an action sits under.
unfoldable pub parent_of : Action → Option Feature
parent_of void_bill = some billing
parent_of void_settlement = some settlements
parent_of all_outlets = none

-- The desks that may be given an action, where they are named.
unfoldable pub action_desks : Action → Option (List Role)
action_desks all_outlets = some (counter ∷ manager ∷ [])
action_desks _ = none
