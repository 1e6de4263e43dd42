-- ===== src/Access/Defaults.antt =====
-- The seeded roles of packages/domain/src/permissions.ts, and what they come with.
use rch.Prelude.{
  ◌≡◌, refl, Bool, true, false, Option, none, some, List, [], ◌∷◌, any, ◌==◌, if◌then◌else◌, not,
  arith,
}
use rch.Access.Names.{
  Role, Feature, Level, counter, manager, store, prod, buyer, view, edit, void_bill,
  void_settlement, all_outlets, feature_code, billing, x_report, z_report, shift_reports, credit,
  settlements, qr_orders, approvals, items_stock, menu, prices, availability, item_photos,
  outlet_stock, outlet_requests, outlet_tickets, issue_desk, store_requisitions, store_stock,
  store_reports, adjustments, goods_receipt, kitchen_orders, make_distribute, kitchen_requests,
  kitchen_tickets, kitchen_stock, requisitions, procurement_list, purchase_orders, rate_contracts,
  vendors, item_master, new_products, inventory, stock_ledger,
}
use rch.Access.Rules.{
  Permissions, can, holds, grant_refusal, grantable, refuse_features, refuse_actions, reads_wide,
  reads_bills, ReadCollection, widened_by,
}
use rch.Access.Catalogue.{levels, parent_of, action_desks}

abbrev listed : List Feature → Feature → Bool
listed fs f = any (λ g. feature_code g == feature_code f) fs

-- `{ ...edit(...edits), ...view(...views) }`: a later key covers an earlier one.
abbrev granted : List Feature → List Feature → Feature → Option Level
granted edits views f =
    if listed views f then some view else if listed edits f then some edit else none

-- `DESK_DEFAULTS`: the five seeded roles.
unfoldable pub desk_defaults : Role → Permissions
desk_defaults counter = record {
  f =
      granted
        (billing ∷ availability ∷ item_photos ∷ outlet_stock ∷ outlet_requests ∷ outlet_tickets
          ∷ qr_orders ∷ [])
        (x_report ∷ []);
  a = [];
}
desk_defaults manager = record {
  f =
      granted
        (credit ∷ settlements ∷ approvals ∷ items_stock ∷ menu ∷ prices ∷ availability ∷ item_photos
          ∷ [])
        (billing ∷ x_report ∷ shift_reports ∷ stock_ledger ∷ qr_orders ∷ []);
  a = void_bill ∷ void_settlement ∷ all_outlets ∷ [];
}
desk_defaults store = record {
  f =
      granted (issue_desk ∷ store_requisitions ∷ adjustments ∷ goods_receipt ∷ item_master ∷ [])
        (store_stock ∷ store_reports ∷ stock_ledger ∷ []);
  a = [];
}
desk_defaults prod = record {
  f =
      granted
        (kitchen_orders ∷ make_distribute ∷ kitchen_requests ∷ kitchen_tickets ∷ availability
          ∷ adjustments ∷ item_master ∷ [])
        (kitchen_stock ∷ stock_ledger ∷ []);
  a = [];
}
desk_defaults buyer = record {
  f =
      granted
        (requisitions ∷ procurement_list ∷ purchase_orders ∷ rate_contracts ∷ vendors
          ∷ goods_receipt ∷ item_master ∷ new_products ∷ [])
        (inventory ∷ stock_ledger ∷ []);
  a = [];
}

-- Every seeded role is one that the role editor would accept for its desk, and none closes the day.
pub desk_defaults_fit :
    (d : Role)
    → (grant_refusal d (desk_defaults d) ≡ none) × (can (desk_defaults d) z_report view ≡ false)
unfolding grant_refusal refuse_features refuse_actions grantable can levels desk_defaults parent_of
    action_desks
desk_defaults_fit counter = (refl, refl)
desk_defaults_fit manager = (refl, refl)
desk_defaults_fit store = (refl, refl)
desk_defaults_fit prod = (refl, refl)
desk_defaults_fit buyer = (refl, refl)

abbrev is_counter : Role → Bool
is_counter counter = true
is_counter d = false

-- With the seeded roles every desk but the counter reads every collection across the hospital,
-- and the counter reads none of them so; every desk reads the till roll.
pub desk_defaults_read :
    (d : Role) (c : ReadCollection)
    → (reads_wide d (desk_defaults d) c ≡ not (is_counter d))
      × (reads_bills d (desk_defaults d) ≡ true)
unfolding reads_wide reads_bills can holds desk_defaults widened_by
desk_defaults_read d c = ground arith
