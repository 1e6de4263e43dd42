-- ===== src/Workflow/Table.antt =====
-- Transition tables as data: `TransitionTable` and `canTransition` of
-- packages/domain/src/transitions.ts, and the walks that a table allows.
use rch.Prelude.{ℕ, ◌≡◌, Bool, true, List, any, ◌==◌}

-- A closed set of names, told apart by their place in the source's enumeration.
pub record Coded {ℓ} (S : Type ℓ) : Type ℓ where
  pub code : S → ℕ
  pub code_inj : (a b : S) → code a ≡ code b → a ≡ b

abbrev pub TransitionTable : Type 0 → Type 0
TransitionTable S = S → List S

-- `xs.includes(x)`
abbrev pub includes {ℓ} : {S : Type ℓ} ⦃e : Coded S⦄ → List S → S → Bool
includes ⦃e⦄ xs x = any (λ y. e.code y == e.code x) xs

unfoldable pub can_transition : {S : Type 0} ⦃e : Coded S⦄ → TransitionTable S → S → S → Bool
can_transition table from to = includes (table from) to

-- The statuses that a document can come to by the moves of the table.
pub data Reach {S : Type 0} ⦃e : Coded S⦄ (t : TransitionTable S) (a : S) : S → Type 0 where
  here : Reach t a a
  next : {b c : S} → Reach t a b → can_transition t b c ≡ true → Reach t a c
