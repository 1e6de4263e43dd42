-- ===== src/Purchasing/Claims/Releasing.antt =====
-- What `releaseClaim` of packages/domain/src/claims.ts gives back and what it keeps.
use rch.Prelude.{
  le_of_not_ltb, lt_of_ltb, EqParts, parts_of_eq, ◌≡◌, refl, ◌⊎◌, inl, inr, List, [], ◌∷◌, ◌++◌,
  arith, All, All-imp, All-append, ℤ, pos, ◌+ℤ◌, ◌-ℤ◌, ◌≤ℤ◌, ◌<ℤ◌, ltb_ℤ, min_ℤ, max_ℤ, int_laws,
  round3, round3_self, IsMilli, sub-IsMilli, min-IsMilli, max-IsMilli, sum_of, sum_of-append,
  sum_of_nonneg, ap, Bool-cases, if◌then◌else◌,
}
use mathlib.Core.List.{reverse, reverse-cons}
use rch.Purchasing.Claims.{ClaimSrc, Release, release_step, release_loop, release_claim}

abbrev pub claimed : List ClaimSrc → ℤ
claimed = sum_of (λ x. x.qty)

-- A claim is for a quantity of whole thousandths that is not negative.
abbrev pub IsClaim : ClaimSrc → Type 0
IsClaim x = IsMilli x.qty × (pos 0 ≤ℤ x.qty)

-- A part of a claim is of something.
abbrev pub IsPart : ClaimSrc → Type 0
IsPart x = pos 0 <ℤ x.qty

release_loop-snoc :
    (xs : List ClaimSrc) (x : ClaimSrc) (s : Release)
    → release_loop (xs ++ x ∷ []) s ≡ release_step (release_loop xs s) x
unfolding release_loop
release_loop-snoc [] x s = refl
release_loop-snoc (y ∷ ys) x s = release_loop-snoc ys x (release_step s y)

-- The loop from the last source to the first is a recursion on the sources.
release_rec : List ClaimSrc → Release → Release
release_rec [] s = s
release_rec (x ∷ xs) s = release_step (release_rec xs s) x

release_loop-reverse :
    (xs : List ClaimSrc) (s : Release) → release_loop (reverse xs) s ≡ release_rec xs s
unfolding release_loop release_rec
release_loop-reverse [] s = refl
release_loop-reverse (x ∷ xs) s =
    rw (reverse-cons x xs, release_loop-snoc (reverse xs) x s, release_loop-reverse xs s)

abbrev pushed : List ClaimSrc → ClaimSrc → ℤ → List ClaimSrc
pushed r x take = if ltb_ℤ (pos 0) take then r ++ record x { qty = round3 take } ∷ [] else r

abbrev kept : List ClaimSrc → ClaimSrc → ℤ → List ClaimSrc
kept l x keep = if ltb_ℤ (pos 0) keep then record x { qty = keep } ∷ l else l

claimed-pushed :
    (r : List ClaimSrc) (x : ClaimSrc) (take : ℤ)
    → IsMilli take
    → pos 0 ≤ℤ take
    → All IsPart r
    → (claimed (pushed r x take) ≡ claimed r +ℤ take) × All IsPart (pushed r x take)
claimed-pushed r x take exact low parts = elim (Bool-cases (ltb_ℤ (pos 0) take)) [
  | inl some_taken ↦
      rw
        (
          some_taken,
          round3_self take exact,
          sum_of-append (λ y. y.qty) r (record x { qty = take } ∷ []),
        )
        (omega int_laws, All-append IsPart r _ parts (ground arith, tt))
  | inr none_taken ↦ rw none_taken (omega (int_laws, le_of_not_ltb (pos 0) take none_taken), parts)
]

claimed-kept :
    (l : List ClaimSrc) (x : ClaimSrc) (keep : ℤ)
    → pos 0 ≤ℤ keep
    → All IsPart l
    → (claimed (kept l x keep) ≡ keep +ℤ claimed l) × All IsPart (kept l x keep)
claimed-kept l x keep low parts = elim (Bool-cases (ltb_ℤ (pos 0) keep)) [
  | inl some_kept ↦ rw some_kept (refl, (ground arith, parts))
  | inr none_kept ↦ rw none_kept (omega (int_laws, le_of_not_ltb (pos 0) keep none_kept), parts)
]

kept-none :
    (owed : ℤ) (x : ClaimSrc) (l : List ClaimSrc)
    → pos 0 ≤ℤ x.qty
    → (owed ≤ℤ pos 0) ⊎ (l ≡ [])
    → (owed -ℤ min_ℤ owed x.qty ≤ℤ pos 0) ⊎ (kept l x (x.qty -ℤ min_ℤ owed x.qty) ≡ [])
kept-none owed x l low h = elim (Bool-cases (ltb_ℤ (pos 0) (x.qty -ℤ min_ℤ owed x.qty))) [
  | inl some_kept ↦ inl (omega (int_laws, lt_of_ltb (pos 0) (x.qty -ℤ min_ℤ owed x.qty) some_kept))
  | inr none_kept ↦ elim h [ inl done ↦ inl (omega int_laws) | inr e ↦ inr (rw none_kept e) ]
]

-- What is still owed, and the two lists, once the given sources are behind.
record IsReleasing (give : ℤ) (src : List ClaimSrc) (s : Release) : Type 0 where
  exact : IsMilli s.owed
  owed_nonneg : pos 0 ≤ℤ s.owed
  owed_le : s.owed ≤ℤ give
  released_all : EqParts (claimed s.released +ℤ s.owed) give
  kept_all : EqParts (claimed s.left +ℤ give) (claimed src +ℤ s.owed)
  all_or_none : (s.owed ≤ℤ pos 0) ⊎ (s.left ≡ [])
  parts_released : All IsPart s.released
  parts_left : All IsPart s.left

step-IsReleasing :
    (give : ℤ) (x : ClaimSrc) (src : List ClaimSrc) (s : Release)
    → IsClaim x
    → IsReleasing give src s
    → IsReleasing give (x ∷ src) (release_step s x)
unfolding release_step
step-IsReleasing give x src s c h =
    let take : ℤ = min_ℤ s.owed x.qty in
    let exact : IsMilli take = min-IsMilli _ _ h.exact c.0 in
    let owed_eq = round3_self (s.owed -ℤ take) (sub-IsMilli _ _ h.exact exact) in
    let keep_eq = round3_self (x.qty -ℤ take) (sub-IsMilli _ _ c.0 exact) in
    let (released, parts) =
      claimed-pushed s.released x take exact (omega (int_laws, h.owed_nonneg, c.1))
        h.parts_released in
    let (left, parts') = claimed-kept s.left x (x.qty -ℤ take) (omega int_laws) h.parts_left in
    rw (owed_eq, keep_eq)
      (record {
        exact = sub-IsMilli _ _ h.exact exact;
        owed_nonneg = omega int_laws;
        owed_le = omega (int_laws, h.owed_le, h.owed_nonneg, c.1);
        released_all = omega (int_laws, parts_of_eq _ _ released, h.released_all);
        kept_all = omega (int_laws, parts_of_eq _ _ left, h.kept_all);
        all_or_none = kept-none s.owed x s.left c.1 h.all_or_none;
        parts_released = parts;
        parts_left = parts';
      })

rec-IsReleasing :
    (give : ℤ) (src : List ClaimSrc)
    → IsMilli give
    → pos 0 ≤ℤ give
    → All IsClaim src
    → IsReleasing give src (release_rec src (record { owed = give; released = []; left = [] }))
unfolding release_rec
rec-IsReleasing give [] exact low h = record {
  exact = exact;
  owed_nonneg = low;
  owed_le = omega arith;
  released_all = omega int_laws;
  kept_all = omega int_laws;
  all_or_none = inr refl;
  parts_released = tt;
  parts_left = tt;
}
rec-IsReleasing give (x ∷ src) exact low (c, h) =
    step-IsReleasing give x src _ c (rec-IsReleasing give src exact low h)

claimed_nonneg : (xs : List ClaimSrc) → All IsPart xs → pos 0 ≤ℤ claimed xs
claimed_nonneg xs h = sum_of_nonneg (λ x. x.qty) xs (All-imp xs (λ x p. omega (arith, p)) h)

IsReleasing-totals :
    (give : ℤ) (src : List ClaimSrc) (s : Release)
    → IsReleasing give src s
    → (claimed s.released ≡ min_ℤ give (claimed src))
      × (claimed s.left ≡ claimed src -ℤ min_ℤ give (claimed src))
IsReleasing-totals give src s h =
    let low = claimed_nonneg s.left h.parts_left in
    elim h.all_or_none [
      | inl done ↦ (
        omega (int_laws, h.released_all, h.owed_nonneg, h.kept_all, low),
        omega (int_laws, h.released_all, h.owed_nonneg, h.kept_all, low),
      )
      | inr e ↦
          let none_left = parts_of_eq _ (pos 0) (ap claimed e) in
          (
            omega (int_laws, h.released_all, h.owed_nonneg, h.kept_all, none_left),
            omega (int_laws, h.released_all, h.owed_nonneg, h.kept_all, none_left),
          )
    ]

-- What can be given back of the given sources.
abbrev pub given : List ClaimSrc → ℤ → ℤ
given src give = min_ℤ (max_ℤ (pos 0) give) (claimed src)

-- Over claims of whole thousandths that are not negative, a release gives back what is asked for,
-- as far as the claims reach, keeps the rest, loses nothing between the two lists, and leaves no
-- line of nothing in either.
pub release_claim_lem :
    (src : List ClaimSrc) (give : ℤ)
    → IsMilli give
    → All IsClaim src
    → let out = release_claim src give in
      (claimed out.released ≡ given src give)
      × (claimed out.left ≡ claimed src -ℤ given src give)
      × All IsPart out.released
      × All IsPart out.left
unfolding release_claim
release_claim_lem src give exact h =
    let start : ℤ = max_ℤ (pos 0) give in
    let exact' : IsMilli start = max-IsMilli (pos 0) give (refl, refl) exact in
    let inv = rec-IsReleasing start src exact' (omega int_laws) h in
    rw (round3_self start exact', release_loop-reverse src _)
      (
        (IsReleasing-totals start src _ inv).0,
        (IsReleasing-totals start src _ inv).1,
        inv.parts_released,
        inv.parts_left,
      )
