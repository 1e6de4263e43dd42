-- ===== src/Workflow/Walks.antt =====
-- Walks along a transition table: induction, walks through a gate, and the longest walk.
use rch.Prelude.{
  ℕ, ◌+◌, ◌≤◌, ◌<◌, ◌≡◌, ◌⊎◌, inl, inr, Bool, true, false, List, [], ◌∷◌, arith, length, sym, ◌∙◌,
}
use mathlib.Core.Bool.{false≢true}
use rch.Workflow.Table.{Coded, TransitionTable, Reach, here, next, can_transition}

module _ {S : Type 0} ⦃e : Coded S⦄ (t : TransitionTable S) where
  -- What holds at the start and is kept by each listed move holds wherever a walk comes to.
  pub Reach_induction {κ} :
      (P : S → Type κ)
      → ((b c : S) → P b → can_transition t b c ≡ true → P c)
      → {a b : S} → Reach t a b
      → P a
      → P b
  Reach_induction P keep here p = p
  Reach_induction P keep (next r h) p = keep _ _ (Reach_induction P keep r p) h

  -- A walk that went through the gate.
  abbrev pub Passed : (S → Bool) → S → S → Type 0
  Passed gate a b = (g : S) × (gate g ≡ true) × Reach t a g × Reach t g b

  module _ (early gate : S → Bool) where
    step-Passed :
        ((b c : S)
          → early b ≡ true
          → can_transition t b c ≡ true
          → (early c ≡ true) ⊎ (gate c ≡ true))
        → {a b : S} (c : S) → Reach t a b
        → can_transition t b c ≡ true
        → (early b ≡ true) ⊎ Passed gate a b
        → (early c ≡ true) ⊎ Passed gate a c
    step-Passed leave {a} {b} c r h (inl e) = elim (leave b c e h) [
      | inl still ↦ inl still
      | inr g ↦ inr (c, g, next r h, here)
    ]
    step-Passed leave c r h (inr (g, hg, p, q)) = inr (g, hg, p, next q h)

    early_or_Passed :
        ((b c : S)
          → early b ≡ true
          → can_transition t b c ≡ true
          → (early c ≡ true) ⊎ (gate c ≡ true))
        → {a b : S} → Reach t a b
        → early a ≡ true
        → (early b ≡ true) ⊎ Passed gate a b
    early_or_Passed leave here s = inl s
    early_or_Passed leave (next {c = c} r h) s = step-Passed leave c r h (early_or_Passed leave r s)

    -- A walk from an early status to a late one goes through the gate.
    pub Reach-through :
        ((b c : S)
          → early b ≡ true
          → can_transition t b c ≡ true
          → (early c ≡ true) ⊎ (gate c ≡ true))
        → {a b : S} → Reach t a b
        → early a ≡ true
        → early b ≡ false
        → Passed gate a b
    Reach-through leave r h late = elim (early_or_Passed leave r h) [
      | inl still ↦ absurd (false≢true (sym late ∙ still))
      | inr through ↦ through
    ]

  -- The statuses after the first of a walk, each by a listed move from the one before it.
  abbrev pub IsWalk : S → List S → Type 0
  IsWalk a [] = Unit
  IsWalk a (b ∷ bs) = (can_transition t a b ≡ true) × IsWalk b bs

  -- Where every move raises a rank that is bounded, walks are short.
  pub IsWalk-length :
      (rank : S → ℕ) (top : ℕ)
      → ((b c : S) → can_transition t b c ≡ true → (rank b < rank c) × (rank c ≤ top))
      → (a : S) (bs : List S) → rank a ≤ top
      → IsWalk a bs
      → rank a + length bs ≤ top
  IsWalk-length rank top up a [] h w = omega arith
  IsWalk-length rank top up a (b ∷ bs) h w =
      omega (arith, up a b w.0, IsWalk-length rank top up b bs (up a b w.0).1 w.1)
