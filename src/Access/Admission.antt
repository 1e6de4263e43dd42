-- ===== src/Access/Admission.antt =====
-- What `admits` answers, against the order of the needs alone.
use rch.Prelude.{
  ◌≡◌, refl, Bool, true, false, Option, none, some, List, [], ◌∷◌, arith, if◌then◌else◌, inl, inr,
  Option-cases,
}
use rch.Access.Names.{Role, Feature, Level, Action, view}
use rch.Access.Rules.{
  Permissions, can, holds, grantable, action_grantable, Need, feature_at, action, Access, public,
  anyone, admin, at_desk, needs, Sentence, ask_for_edit, ask_for_action, Admitted, admitted,
  nothing_here, ask, met, met_wide, hint, admits_needs, admits, or_else,
}

-- The first element that a test finds.
abbrev pub find : (Need → Bool) → List Need → Option Need
find p [] = none
find p (n ∷ ns) = if p n then some n else find p ns

-- The first sentence that a caller who met no need may be told.
abbrev pub first_hint : Role → Permissions → List Need → Option Sentence
first_hint d p [] = none
first_hint d p (n ∷ ns) = or_else (hint d p n) (first_hint d p ns)

abbrev pub refused : Option Sentence → Admitted
refused none = nothing_here
refused (some s) = ask s

abbrev pub verdict : Permissions → Option Need → Option Sentence → Admitted
verdict p (some n) s = admitted (met_wide p n)
verdict p none s = refused s

admits_needs_from :
    (d : Role) (p : Permissions) (ns : List Need) (r : Option Sentence)
    → admits_needs d p ns r ≡ verdict p (find (met p) ns) (or_else r (first_hint d p ns))
unfolding admits_needs
admits_needs_from d p [] none = refl
admits_needs_from d p [] (some s) = refl
admits_needs_from d p (n ∷ ns) none = ground (arith, admits_needs_from d p ns (hint d p n))
admits_needs_from d p (n ∷ ns) (some s) = ground (arith, admits_needs_from d p ns (some s))

-- A route with needs admits by the first need that is met, wherever refusals stand before it, and
-- with none met answers 403 with the first sentence there is to say, and 404 where there is none.
pub admits_first_met :
    (d : Role) (p : Permissions) (ns : List Need)
    → admits (needs ns) d p ≡ verdict p (find (met p) ns) (first_hint d p ns)
unfolding admits
admits_first_met d p ns = admits_needs_from d p ns none

-- More than another: every level and every action of the one is held by the other.
abbrev pub Extends : Permissions → Permissions → Type 0
Extends p q =
    ((f : Feature) (l : Level) → can p f l ≡ true → can q f l ≡ true)
    × ((a : Action) → holds p a ≡ true → holds q a ≡ true)

met_mono : (p q : Permissions) (n : Need) → Extends p q → met p n ≡ true → met q n ≡ true
unfolding met
met_mono p q (feature_at f l) e h = e.0 f l h
met_mono p q (action a) e h = e.1 a h

abbrev found : Option Need → Bool
found none = false
found (some n) = true

find_mono :
    (p q : Permissions) (ns : List Need)
    → Extends p q
    → found (find (met p) ns) ≡ true
    → found (find (met q) ns) ≡ true
find_mono p q [] e h = h
find_mono p q (n ∷ ns) e h = ground (arith, met_mono p q n e, find_mono p q ns e)

abbrev pub is_admitted : Admitted → Bool
is_admitted (admitted w) = true
is_admitted _ = false

-- A caller who is given more keeps every door that was open.
pub admits_mono :
    (access : Access) (d : Role) (p q : Permissions)
    → Extends p q
    → is_admitted (admits access d p) ≡ true
    → is_admitted (admits access d q) ≡ true
unfolding admits
admits_mono public d p q e h = refl
admits_mono anyone d p q e h = refl
admits_mono admin d p q e h = h
admits_mono (at_desk ds) d p q e h = ground arith
admits_mono (needs ns) d p q e h =
    ground (arith, admits_needs_from d p ns none, admits_needs_from d q ns none, find_mono p q ns e)

-- What a 403 may name: the administrator could give it to this desk, and the caller does not hold
-- it; for a feature the caller sees the screen already.
abbrev pub CanBeAsked : Role → Permissions → Sentence → Type 0
CanBeAsked d p (ask_for_edit f) =
    (can p f view ≡ true) × ((l : Level) × (grantable d f l ≡ true) × (can p f l ≡ false))
CanBeAsked d p (ask_for_action a) = (action_grantable d a ≡ true) × (holds p a ≡ false)

hint-CanBeAsked :
    (d : Role) (p : Permissions) (n : Need) (s : Sentence)
    → met p n ≡ false
    → hint d p n ≡ some s
    → CanBeAsked d p s
unfolding met hint
hint-CanBeAsked d p (feature_at f l) (ask_for_edit g) m h =
    (ground arith, (l, ground arith, ground arith))
hint-CanBeAsked d p (feature_at f l) (ask_for_action a) m h = ground arith
hint-CanBeAsked d p (action a) (ask_for_edit g) m h = ground arith
hint-CanBeAsked d p (action a) (ask_for_action b) m h = (ground arith, ground arith)

first_hint-CanBeAsked :
    (d : Role) (p : Permissions) (ns : List Need) (s : Sentence)
    → found (find (met p) ns) ≡ false
    → first_hint d p ns ≡ some s
    → CanBeAsked d p s
first_hint-CanBeAsked d p [] s m h = cc
first_hint-CanBeAsked d p (n ∷ ns) s m h = elim (Option-cases (hint d p n)) [
  | inl e ↦ first_hint-CanBeAsked d p ns s (ground arith) (ground arith)
  | inr (t, e) ↦ hint-CanBeAsked d p n s (ground arith) (ground arith)
]

-- A 403 from a route with needs names something that its caller lacks and that the administrator
-- can give to the caller's desk.
pub ask-CanBeAsked :
    (d : Role) (p : Permissions) (ns : List Need) (s : Sentence)
    → admits (needs ns) d p ≡ ask s
    → CanBeAsked d p s
ask-CanBeAsked d p ns s h =
    first_hint-CanBeAsked d p ns s (ground (arith, admits_first_met d p ns))
      (ground (arith, admits_first_met d p ns))
