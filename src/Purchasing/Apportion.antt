-- ===== src/Purchasing/Apportion.antt =====
-- A receipt laid over the sources of its line: packages/domain/src/apportion.ts.
use rch.Prelude.{
  ◌≡◌, refl, List, [], ◌∷◌, All, ℤ, pos, ◌-ℤ◌, ◌≤ℤ◌, min_ℤ, max_ℤ, int_laws, round3, round3_self,
  IsMilli, sub-IsMilli, min-IsMilli, max-IsMilli, sum_of, sum_of_nonneg, All-imp,
}

-- The body of the `map`, with what is left.
unfoldable pub apportion_from : ℤ → List ℤ → List ℤ
apportion_from left [] = []
apportion_from left (qty ∷ src) =
    let take = round3 (min_ℤ (max_ℤ left (pos 0)) qty) in
    take ∷ apportion_from (round3 (left -ℤ take)) src

-- A source is read for its quantity alone.
unfoldable pub apportion : ℤ → List ℤ → List ℤ
unfolding apportion_from
apportion recv src = apportion_from recv src

abbrev pub IsQty : ℤ → Type 0
IsQty q = IsMilli q × (pos 0 ≤ℤ q)

-- Each share is between nothing and what its source asks for.
abbrev pub Shares : List ℤ → List ℤ → Type 0
Shares [] [] = Unit {0}
Shares (t ∷ ts) (q ∷ qs) = (pos 0 ≤ℤ t) × (t ≤ℤ q) × Shares ts qs
Shares _ _ = ⊥

abbrev pub total : List ℤ → ℤ
total = sum_of (λ q. q)

take_exact :
    (left qty : ℤ)
    → IsMilli left
    → IsQty qty
    → round3 (min_ℤ (max_ℤ left (pos 0)) qty) ≡ min_ℤ (max_ℤ left (pos 0)) qty
take_exact left qty hl hq =
    round3_self _ (min-IsMilli _ _ (max-IsMilli left (pos 0) hl (refl, refl)) hq.0)

pub total_nonneg : (src : List ℤ) → All IsQty src → pos 0 ≤ℤ total src
total_nonneg src h = sum_of_nonneg (λ q. q) src (All-imp src (λ q h. h.1) h)

apportion_from_lem :
    (left : ℤ) (src : List ℤ)
    → IsMilli left
    → All IsQty src
    → Shares (apportion_from left src) src
      × (total (apportion_from left src) ≡ min_ℤ (max_ℤ left (pos 0)) (total src))
unfolding apportion_from
apportion_from_lem left [] hl h = (tt, omega int_laws)
apportion_from_lem left (qty ∷ src) hl (hq, hs) =
    let take : ℤ = min_ℤ (max_ℤ left (pos 0)) qty in
    let rest : ℤ = left -ℤ take in
    let exact : IsMilli rest =
      sub-IsMilli left take hl (min-IsMilli _ _ (max-IsMilli left (pos 0) hl (refl, refl)) hq.0) in
    let (shares, sums) = apportion_from_lem rest src exact hs in
    rw (take_exact left qty hl hq, round3_self rest exact)
      ((omega int_laws, omega int_laws, shares), rw sums (omega (int_laws, total_nonneg src hs)))

-- Over sources of whole thousandths that are not negative, every share lies between nothing and
-- what its source asks for, and together they are the whole receipt or all that is asked for,
-- whichever is less; a receipt below zero gives nothing.
pub apportion_lem :
    (recv : ℤ) (src : List ℤ)
    → IsMilli recv
    → All IsQty src
    → Shares (apportion recv src) src
      × (total (apportion recv src) ≡ min_ℤ (max_ℤ recv (pos 0)) (total src))
unfolding apportion
apportion_lem = apportion_from_lem
