-- ===== src/Access/Tests.antt =====
-- The theorems on access at concrete callers.
use rch.Prelude.{◌≡◌, refl, true, none, some, List, [], ◌∷◌}
use rch.Access.Names.{Feature, Level, manager, prices, view, edit, void_bill, Action}
use rch.Access.Rules.{
  Permissions, holds, grantable, action_grantable, grant_refusal, missing_parent, refuse_features,
  refuse_actions, Need, feature_at, action, needs, admits, met,
}
use rch.Access.Catalogue.{parent_of, levels}
use rch.Access.Grants.{grant_refusal_sound}
use rch.Access.Admission.{find, first_hint, verdict, Extends, admits_first_met}

-- A manager who sees prices and cannot change them.
abbrev viewer : Permissions
viewer = record { f = λ f. elim f [ prices ↦ some view | _ ↦ none ]; a = [] }

abbrev price_needs : List Need
price_needs = action void_bill ∷ feature_at prices edit ∷ []

admits_first_met_example :
    admits (needs price_needs) manager viewer
    ≡ verdict viewer (find (met viewer) price_needs) (first_hint manager viewer price_needs)
admits_first_met_example = admits_first_met manager viewer price_needs

viewer-Extends : Extends viewer viewer
viewer-Extends = (λ f l h. h, λ a h. h)

grant_refusal_sound_example :
    ((f : Feature) (l : Level) → viewer.f f ≡ some l → grantable manager f l ≡ true)
    × ((a : Action)
        → holds viewer a ≡ true
        → (action_grantable manager a ≡ true) × (missing_parent viewer (parent_of a) ≡ none))
unfolding grant_refusal refuse_features refuse_actions grantable levels
grant_refusal_sound_example = grant_refusal_sound manager viewer refl
