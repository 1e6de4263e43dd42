-- ===== src/Access/Grants.antt =====
-- A set of permissions that the role editor accepts holds only what its desk may be given.
use rch.Prelude.{
  ◌≡◌, true, false, none, some, List, [], ◌∷◌, arith, All, ◌==◌, Bool-cases, Option-cases, inl, inr,
}
use rch.Workflow.Table.{includes}
use rch.Access.Names.{
  Role, Feature, Level, Action, view, void_bill, void_settlement, all_outlets, role_coded,
  action_coded, action_code, action_code_inj, billing, x_report, z_report, shift_reports, credit,
  settlements, qr_orders, approvals, items_stock, menu, prices, availability, item_photos,
  outlet_stock, outlet_requests, outlet_tickets, issue_desk, store_requisitions, store_stock,
  store_reports, adjustments, goods_receipt, kitchen_orders, make_distribute, kitchen_requests,
  kitchen_tickets, kitchen_stock, requisitions, procurement_list, purchase_orders, rate_contracts,
  vendors, item_master, new_products, inventory, stock_ledger,
}
use rch.Access.Catalogue.{all_features, levels, parent_of, action_desks}
use rch.Access.Rules.{
  Permissions, can, holds, grantable, grant_refusal, refuse_features, refuse_actions,
  action_grantable, off_desk, missing_parent,
}

-- What the role holds of the feature is something its desk may be given.
abbrev pub Fits : Role → Permissions → Feature → Type 0
Fits d p f = (l : Level) → p.f f ≡ some l → grantable d f l ≡ true

-- The action is one for the desk, and its feature is held.
abbrev pub FitsAction : Role → Permissions → Action → Type 0
FitsAction d p a = (off_desk (action_desks a) d ≡ false) × (missing_parent p (parent_of a) ≡ none)

refuse_features-All :
    (d : Role) (p : Permissions) (fs : List Feature)
    → refuse_features d p fs ≡ none
    → All (Fits d p) fs
unfolding refuse_features
refuse_features-All d p [] h = tt
refuse_features-All d p (f ∷ fs) h = elim (Option-cases (p.f f)) [
  | inl e ↦ (λ l e'. cc, refuse_features-All d p fs (ground arith))
  | inr (l, e) ↦ (λ l' e'. ground arith, refuse_features-All d p fs (ground arith))
]

All_features : (P : Feature → Type 0) → All P all_features → (f : Feature) → P f
All_features P h billing = h.0
All_features P h x_report = h.1.0
All_features P h z_report = h.1.1.0
All_features P h shift_reports = h.1.1.1.0
All_features P h credit = h.1.1.1.1.0
All_features P h settlements = h.1.1.1.1.1.0
All_features P h qr_orders = h.1.1.1.1.1.1.0
All_features P h approvals = h.1.1.1.1.1.1.1.0
All_features P h items_stock = h.1.1.1.1.1.1.1.1.0
All_features P h menu = h.1.1.1.1.1.1.1.1.1.0
All_features P h prices = h.1.1.1.1.1.1.1.1.1.1.0
All_features P h availability = h.1.1.1.1.1.1.1.1.1.1.1.0
All_features P h item_photos = h.1.1.1.1.1.1.1.1.1.1.1.1.0
All_features P h outlet_stock = h.1.1.1.1.1.1.1.1.1.1.1.1.1.0
All_features P h outlet_requests = h.1.1.1.1.1.1.1.1.1.1.1.1.1.1.0
All_features P h outlet_tickets = h.1.1.1.1.1.1.1.1.1.1.1.1.1.1.1.0
All_features P h issue_desk = h.1.1.1.1.1.1.1.1.1.1.1.1.1.1.1.1.0
All_features P h store_requisitions = h.1.1.1.1.1.1.1.1.1.1.1.1.1.1.1.1.1.0
All_features P h store_stock = h.1.1.1.1.1.1.1.1.1.1.1.1.1.1.1.1.1.1.0
All_features P h store_reports = h.1.1.1.1.1.1.1.1.1.1.1.1.1.1.1.1.1.1.1.0
All_features P h adjustments = h.1.1.1.1.1.1.1.1.1.1.1.1.1.1.1.1.1.1.1.1.0
All_features P h goods_receipt = h.1.1.1.1.1.1.1.1.1.1.1.1.1.1.1.1.1.1.1.1.1.0
All_features P h kitchen_orders = h.1.1.1.1.1.1.1.1.1.1.1.1.1.1.1.1.1.1.1.1.1.1.0
All_features P h make_distribute = h.1.1.1.1.1.1.1.1.1.1.1.1.1.1.1.1.1.1.1.1.1.1.1.0
All_features P h kitchen_requests = h.1.1.1.1.1.1.1.1.1.1.1.1.1.1.1.1.1.1.1.1.1.1.1.1.0
All_features P h kitchen_tickets = h.1.1.1.1.1.1.1.1.1.1.1.1.1.1.1.1.1.1.1.1.1.1.1.1.1.0
All_features P h kitchen_stock = h.1.1.1.1.1.1.1.1.1.1.1.1.1.1.1.1.1.1.1.1.1.1.1.1.1.1.0
All_features P h requisitions = h.1.1.1.1.1.1.1.1.1.1.1.1.1.1.1.1.1.1.1.1.1.1.1.1.1.1.1.0
All_features P h procurement_list = h.1.1.1.1.1.1.1.1.1.1.1.1.1.1.1.1.1.1.1.1.1.1.1.1.1.1.1.1.0
All_features P h purchase_orders = h.1.1.1.1.1.1.1.1.1.1.1.1.1.1.1.1.1.1.1.1.1.1.1.1.1.1.1.1.1.0
All_features P h rate_contracts = h.1.1.1.1.1.1.1.1.1.1.1.1.1.1.1.1.1.1.1.1.1.1.1.1.1.1.1.1.1.1.0
All_features P h vendors = h.1.1.1.1.1.1.1.1.1.1.1.1.1.1.1.1.1.1.1.1.1.1.1.1.1.1.1.1.1.1.1.0
All_features P h item_master = h.1.1.1.1.1.1.1.1.1.1.1.1.1.1.1.1.1.1.1.1.1.1.1.1.1.1.1.1.1.1.1.1.0
All_features P h new_products =
    h.1.1.1.1.1.1.1.1.1.1.1.1.1.1.1.1.1.1.1.1.1.1.1.1.1.1.1.1.1.1.1.1.1.0
All_features P h inventory = h.1.1.1.1.1.1.1.1.1.1.1.1.1.1.1.1.1.1.1.1.1.1.1.1.1.1.1.1.1.1.1.1.1.1.0
All_features P h stock_ledger =
    h.1.1.1.1.1.1.1.1.1.1.1.1.1.1.1.1.1.1.1.1.1.1.1.1.1.1.1.1.1.1.1.1.1.1.1.0

refuse_actions-fit :
    (d : Role) (p : Permissions) (as' : List Action) (a : Action)
    → refuse_actions d p as' ≡ none
    → includes as' a ≡ true
    → FitsAction d p a
unfolding refuse_actions
refuse_actions-fit d p [] a h m = cc
refuse_actions-fit d p (b ∷ bs) a h m = elim (Bool-cases (action_code b == action_code a)) [
  | inl same ↦ let e : b ≡ a = action_code_inj b a (ground arith) in rw (← e) (ground arith)
  | inr other ↦ refuse_actions-fit d p bs a (ground arith) (ground arith)
]

-- A desk that may be given edit of a feature may be given view of it, where view is given at all.
held_grantable :
    (d : Role) (p : Permissions) (f : Feature)
    → Fits d p f
    → ((l : Level) → grantable d f l ≡ true → grantable d f view ≡ true)
    → can p f view ≡ true
    → grantable d f view ≡ true
unfolding can
held_grantable d p f fits lower h = elim (Option-cases (p.f f)) [
  | inl e ↦ ground arith
  | inr (l, e) ↦ lower l (fits l e)
]

lower_billing :
    (d : Role) (l : Level) → grantable d billing l ≡ true → grantable d billing view ≡ true
unfolding grantable levels
lower_billing d l h = ground arith

lower_settlements :
    (d : Role) (l : Level) → grantable d settlements l ≡ true → grantable d settlements view ≡ true
unfolding grantable levels
lower_settlements d l h = ground arith

Fits-grantable :
    (d : Role) (p : Permissions) (a : Action)
    → ((f : Feature) → Fits d p f)
    → FitsAction d p a
    → action_grantable d a ≡ true
unfolding action_grantable parent_of action_desks
Fits-grantable d p void_bill fits (on, parent) =
    ground (arith, held_grantable d p billing (fits billing) (lower_billing d))
Fits-grantable d p void_settlement fits (on, parent) =
    ground (arith, held_grantable d p settlements (fits settlements) (lower_settlements d))
Fits-grantable d p all_outlets fits (on, parent) = ground arith

-- What the role editor accepts for a desk holds features and actions only as that desk may be
-- given them, and an action only together with the feature that it sits under.
pub grant_refusal_sound :
    (d : Role) (p : Permissions)
    → grant_refusal d p ≡ none
    → ((f : Feature) (l : Level) → p.f f ≡ some l → grantable d f l ≡ true)
      × ((a : Action)
          → holds p a ≡ true
          → (action_grantable d a ≡ true) × (missing_parent p (parent_of a) ≡ none))
unfolding grant_refusal holds
grant_refusal_sound d p h =
    let fits : (f : Feature) → Fits d p f =
      All_features (Fits d p) (refuse_features-All d p all_features (ground arith)) in
    (
      fits,
      λ a m.
          let fit = refuse_actions-fit d p p.a a (ground arith) m in
          (Fits-grantable d p a fits fit, fit.1),
    )
