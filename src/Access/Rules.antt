-- ===== src/Access/Rules.antt =====
-- `can`, `holds`, `grantRefusal`, `admits`, `readsWide` and `readsBills` of
-- packages/domain/src/permissions.ts, over the `Access` of packages/contract/src/routes.ts.
-- A sentence is the data that it is printed from.
use rch.Prelude.{
  Bool, true, false, ◌&&◌, ◌||◌, not, Option, none, some, List, [], ◌∷◌, ◌==◌, if◌then◌else◌, any,
}
use rch.Workflow.Table.{includes}
use rch.Access.Names.{
  Role, Feature, Level, Action, view, all_outlets, role_coded, action_coded, role_code, level_code,
  billing, items_stock, stock_ledger, inventory, prices, menu, approvals,
}
use rch.Access.Catalogue.{
  Scope, wide, local, all_desks, all_features, scope_of, levels, parent_of, action_desks,
}

pub record Permissions : Type 0 where
  pub f : Feature → Option Level
  pub a : List Action

-- `held !== undefined && (l === "view" || held === "edit")`
abbrev pub reaches : Option Level → Level → Bool
reaches none l = false
reaches (some held) l = (level_code l == 0) || (level_code held == 1)

unfoldable pub can : Permissions → Feature → Level → Bool
can perms f l = reaches (perms.f f) l

unfoldable pub holds : Permissions → Action → Bool
holds perms a = includes perms.a a

abbrev pub desk_in : Option (List Role) → Role → Bool
desk_in none desk = false
desk_in (some desks) desk = includes desks desk

-- Whether a role on this desk could ever be given this feature at this level.
unfoldable pub grantable : Role → Feature → Level → Bool
grantable desk f l = desk_in (levels f l) desk

-- `(def.desks ?? ALL).includes(desk)`
abbrev pub desks_or_all : Option (List Role) → List Role
desks_or_all none = all_desks
desks_or_all (some desks) = desks

abbrev pub parent_grantable : Role → Option Feature → Bool
parent_grantable desk none = true
parent_grantable desk (some parent) = grantable desk parent view

unfoldable pub action_grantable : Role → Action → Bool
action_grantable desk a =
    includes (desks_or_all (action_desks a)) desk && parent_grantable desk (parent_of a)

pub data GrantRefusal : Type 0 where
  not_given : Role → Level → Feature → GrantRefusal
  not_given_action : Role → Action → GrantRefusal
  needs_parent : Action → Feature → GrantRefusal

-- The loop over the features.
unfoldable pub refuse_features : Role → Permissions → List Feature → Option GrantRefusal
refuse_features desk perms [] = none
refuse_features desk perms (f ∷ fs) =
    let rest = refuse_features desk perms fs in
    elim (perms.f f) [
      | none ↦ rest
      | some l ↦ if grantable desk f l then rest else some (not_given desk l f)
    ]

-- `def.desks && !def.desks.includes(desk)`
abbrev pub off_desk : Option (List Role) → Role → Bool
off_desk none desk = false
off_desk (some desks) desk = not (includes desks desk)

-- `def.parent && !can(perms, def.parent)`
abbrev pub missing_parent : Permissions → Option Feature → Option Feature
missing_parent perms none = none
missing_parent perms (some parent) = if can perms parent view then none else some parent

-- The loop over the actions.
unfoldable pub refuse_actions : Role → Permissions → List Action → Option GrantRefusal
refuse_actions desk perms [] = none
refuse_actions desk perms (a ∷ as') =
    let rest = refuse_actions desk perms as' in
    if off_desk (action_desks a) desk
    then some (not_given_action desk a)
    else elim (missing_parent perms (parent_of a)) [
      | some parent ↦ some (needs_parent a parent)
      | none ↦ rest
    ]

unfoldable pub grant_refusal : Role → Permissions → Option GrantRefusal
grant_refusal desk perms =
    let actions = refuse_actions desk perms perms.a in
    elim (refuse_features desk perms all_features) [ some r ↦ some r | none ↦ actions ]

pub data Need : Type 0 where
  feature_at : Feature → Level → Need
  action : Action → Need

pub data Access : Type 0 where
  public anyone admin : Access
  at_desk : List Role → Access
  needs : List Need → Access

pub data Sentence : Type 0 where
  ask_for_edit : Feature → Sentence
  ask_for_action : Action → Sentence

-- `nothing_here` is the 404 and `ask` the 403.
pub data Admitted : Type 0 where
  admitted : Bool → Admitted
  nothing_here : Admitted
  ask : Sentence → Admitted

-- `refusal ??= …`
abbrev pub or_else : Option Sentence → Option Sentence → Option Sentence
or_else none new = new
or_else (some s) new = some s

abbrev pub holds_parent : Permissions → Option Feature → Bool
holds_parent perms none = false
holds_parent perms (some parent) = can perms parent view

abbrev pub is_wide : Scope → Bool
is_wide wide = true
is_wide local = false

-- Whether one need is met, and what a caller who falls short of it may be told to ask for.
unfoldable pub met : Permissions → Need → Bool
met perms (action a) = holds perms a
met perms (feature_at f l) = can perms f l

unfoldable pub met_wide : Permissions → Need → Bool
met_wide perms (action a) = true
met_wide perms (feature_at f l) = is_wide (scope_of f) || holds perms all_outlets

unfoldable pub hint : Role → Permissions → Need → Option Sentence
hint desk perms (action a) =
    if holds_parent perms (parent_of a) && action_grantable desk a
    then some (ask_for_action a)
    else none
hint desk perms (feature_at f l) =
    if can perms f view && grantable desk f l then some (ask_for_edit f) else none

-- The loop of `admits` over the needs, with the refusal found so far.
unfoldable pub admits_needs : Role → Permissions → List Need → Option Sentence → Admitted
admits_needs desk perms [] none = nothing_here
admits_needs desk perms [] (some s) = ask s
admits_needs desk perms (n ∷ ns) refusal =
    let rest = admits_needs desk perms ns (or_else refusal (hint desk perms n)) in
    if met perms n then admitted (met_wide perms n) else rest

unfoldable pub admits : Access → Role → Permissions → Admitted
admits public d perms = admitted (holds perms all_outlets)
admits anyone d perms = admitted (holds perms all_outlets)
admits admin d perms = nothing_here
admits (at_desk ds) d perms =
    if includes ds d then admitted (holds perms all_outlets) else nothing_here
admits (needs ns) d perms = admits_needs d perms ns none

pub data ReadCollection : Type 0 where
  bills stock requests tickets shop_asks prod_orders adj_req product_reqs : ReadCollection

-- `WIDENED_BY`
unfoldable pub widened_by : ReadCollection → List Feature
widened_by bills = []
widened_by stock = items_stock ∷ stock_ledger ∷ inventory ∷ prices ∷ menu ∷ []
widened_by requests = approvals ∷ []
widened_by tickets = approvals ∷ items_stock ∷ []
widened_by shop_asks = approvals ∷ []
widened_by prod_orders = approvals ∷ []
widened_by adj_req = approvals ∷ []
widened_by product_reqs = approvals ∷ menu ∷ []

abbrev pub at_counter_or_manager : Role → Bool
at_counter_or_manager desk = (role_code desk == 0) || (role_code desk == 1)

unfoldable pub reads_wide : Role → Permissions → ReadCollection → Bool
reads_wide desk perms c =
    not (at_counter_or_manager desk)
    || holds perms all_outlets
    || any (λ f. can perms f view) (widened_by c)

unfoldable pub reads_bills : Role → Permissions → Bool
reads_bills desk perms = not (at_counter_or_manager desk) || can perms billing view
