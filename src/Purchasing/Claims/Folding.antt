-- ===== src/Purchasing/Claims/Folding.antt =====
-- What `foldClaims` and `shortfallClaims` of packages/domain/src/claims.ts add up to.
use rch.Prelude.{
  ℕ, ◌≡◌, refl, Bool, true, false, ◌&&◌, List, [], ◌∷◌, arith, All, All-imp, ℤ, pos, ◌+ℤ◌, int_laws,
  round3_self, round3-IsMilli, IsMilli, add-IsMilli, sum_of, Bool-cases, if◌then◌else◌, inl, inr,
  ◌==◌,
}
use rch.Purchasing.Claims.{
  ClaimSrc, same_key, fold_into, fold_all, before, insert_sorted, sort_claims, fold_claims,
}

-- What a list claims of one requisition line.
abbrev pub claim_on : ℕ → ℕ → List ClaimSrc → ℤ
claim_on prq line = sum_of (λ x. if (x.prq == prq) && (x.line == line) then x.qty else pos 0)

abbrev pub Exact : List ClaimSrc → Type 0
Exact = All (λ x. IsMilli x.qty)

pub fold_into-Exact : (by : List ClaimSrc) (x : ClaimSrc) → Exact by → Exact (fold_into by x)
unfolding fold_into
fold_into-Exact [] x h = (round3-IsMilli x.qty, tt)
fold_into-Exact (at ∷ by) x h = elim (Bool-cases (same_key at x)) [
  | inl e ↦ rw e (round3-IsMilli (at.qty +ℤ x.qty), h.1)
  | inr e ↦ rw e (h.0, fold_into-Exact by x h.1)
]

regroup :
    (b : Bool) (p q r : ℤ)
    → (if b then p +ℤ q else pos 0) +ℤ r
      ≡ (if b then q else pos 0) +ℤ ((if b then p else pos 0) +ℤ r)
regroup true p q r = omega int_laws
regroup false p q r = omega int_laws

same_test :
    (prq line : ℕ) (at x : ClaimSrc)
    → same_key at x ≡ true
    → ((at.prq == prq) && (at.line == line)) ≡ ((x.prq == prq) && (x.line == line))
same_test prq line at x e = ground arith

claim_on-fold_into :
    (prq line : ℕ) (by : List ClaimSrc) (x : ClaimSrc)
    → Exact by
    → IsMilli x.qty
    → claim_on prq line (fold_into by x) ≡ claim_on prq line (x ∷ by)
unfolding fold_into
claim_on-fold_into prq line [] x h hx = rw (round3_self x.qty hx)
claim_on-fold_into prq line (at ∷ by) x h hx = elim (Bool-cases (same_key at x)) [
  | inl e ↦
      rw (e, round3_self _ (add-IsMilli at.qty x.qty h.0 hx), same_test prq line at x e)
        (regroup _ at.qty x.qty (claim_on prq line by))
  | inr e ↦ rw (e, claim_on-fold_into prq line by x h.1 hx) (omega int_laws)
]

claim_on-fold_all :
    (prq line : ℕ) (xs by : List ClaimSrc)
    → Exact by
    → Exact xs
    → claim_on prq line (fold_all by xs) ≡ claim_on prq line by +ℤ claim_on prq line xs
unfolding fold_all
claim_on-fold_all prq line [] by h hs = omega int_laws
claim_on-fold_all prq line (x ∷ xs) by h hs =
    rw
      (
        claim_on-fold_all prq line xs (fold_into by x) (fold_into-Exact by x h) hs.1,
        claim_on-fold_into prq line by x h hs.0,
      )
      (omega int_laws)

claim_on-insert_sorted :
    (prq line : ℕ) (x : ClaimSrc) (ys : List ClaimSrc)
    → claim_on prq line (insert_sorted x ys) ≡ claim_on prq line (x ∷ ys)
unfolding insert_sorted
claim_on-insert_sorted prq line x [] = refl
claim_on-insert_sorted prq line x (y ∷ ys) = elim (Bool-cases (before y x)) [
  | inl e ↦ rw (e, claim_on-insert_sorted prq line x ys) (omega int_laws)
  | inr e ↦ rw e refl
]

claim_on-sort_claims :
    (prq line : ℕ) (xs : List ClaimSrc) → claim_on prq line (sort_claims xs) ≡ claim_on prq line xs
unfolding sort_claims
claim_on-sort_claims prq line [] = refl
claim_on-sort_claims prq line (x ∷ xs) =
    rw (claim_on-insert_sorted prq line x (sort_claims xs), claim_on-sort_claims prq line xs) refl

-- Each entry is for another line than the entries behind it.
abbrev Distinct : List ClaimSrc → Type 0
Distinct [] = Unit
Distinct (x ∷ xs) = All (λ y. same_key x y ≡ false) xs × Distinct xs

-- Strictly ascending by requisition and line.
abbrev pub Ascending : List ClaimSrc → Type 0
Ascending [] = Unit
Ascending (x ∷ xs) = All (λ y. before x y ≡ true) xs × Ascending xs

other-fold_into :
    (a : ClaimSrc) (by : List ClaimSrc) (x : ClaimSrc)
    → same_key a x ≡ false
    → All (λ y. same_key a y ≡ false) by
    → All (λ y. same_key a y ≡ false) (fold_into by x)
unfolding fold_into
other-fold_into a [] x e h = (e, tt)
other-fold_into a (at ∷ by) x e h = elim (Bool-cases (same_key at x)) [
  | inl s ↦ rw s h
  | inr s ↦ rw s (h.0, other-fold_into a by x e h.1)
]

fold_into-Distinct : (by : List ClaimSrc) (x : ClaimSrc) → Distinct by → Distinct (fold_into by x)
unfolding fold_into
fold_into-Distinct [] x h = (tt, tt)
fold_into-Distinct (at ∷ by) x h = elim (Bool-cases (same_key at x)) [
  | inl s ↦ rw s h
  | inr s ↦ rw s (other-fold_into at by x s h.0, fold_into-Distinct by x h.1)
]

fold_all-Distinct : (xs by : List ClaimSrc) → Distinct by → Distinct (fold_all by xs)
unfolding fold_all
fold_all-Distinct [] by h = h
fold_all-Distinct (x ∷ xs) by h = fold_all-Distinct xs (fold_into by x) (fold_into-Distinct by x h)

All-insert_sorted {ℓ} :
    (P : ClaimSrc → Type ℓ) (x : ClaimSrc) (ys : List ClaimSrc)
    → P x
    → All P ys
    → All P (insert_sorted x ys)
unfolding insert_sorted
All-insert_sorted P x [] h hs = (h, tt)
All-insert_sorted P x (y ∷ ys) h hs = elim (Bool-cases (before y x)) [
  | inl e ↦ rw e (hs.0, All-insert_sorted P x ys h hs.1)
  | inr e ↦ rw e (h, hs)
]

pub All-sort_claims {ℓ} :
    (P : ClaimSrc → Type ℓ) (xs : List ClaimSrc) → All P xs → All P (sort_claims xs)
unfolding sort_claims
All-sort_claims P [] h = tt
All-sort_claims P (x ∷ xs) h = All-insert_sorted P x (sort_claims xs) h.0 (All-sort_claims P xs h.1)

before_trans : (x y z : ClaimSrc) → before x y ≡ true → before y z ≡ true → before x z ≡ true
before_trans x y z h k = ground arith

before_total : (x y : ClaimSrc) → same_key x y ≡ false → before y x ≡ false → before x y ≡ true
before_total x y h k = ground arith

insert_sorted-Ascending :
    (x : ClaimSrc) (ys : List ClaimSrc)
    → All (λ y. same_key x y ≡ false) ys
    → Ascending ys
    → Ascending (insert_sorted x ys)
unfolding insert_sorted
insert_sorted-Ascending x [] d h = (tt, tt)
insert_sorted-Ascending x (y ∷ ys) d h = elim (Bool-cases (before y x)) [
  | inl e ↦
      rw e (
        All-insert_sorted (λ z. before y z ≡ true) x ys e h.0,
        insert_sorted-Ascending x ys d.1 h.1,
      )
  | inr e ↦
      let first = before_total x y d.0 e in
      rw e ((first, All-imp ys (λ z. before_trans x y z first) h.0), h)
]

sort_claims-Ascending : (xs : List ClaimSrc) → Distinct xs → Ascending (sort_claims xs)
unfolding sort_claims
sort_claims-Ascending [] h = tt
sort_claims-Ascending (x ∷ xs) h =
    insert_sorted-Ascending x (sort_claims xs) (All-sort_claims (λ y. same_key x y ≡ false) xs h.0)
      (sort_claims-Ascending xs h.1)

-- The folded claims ascend strictly by requisition and line, so each line stands there once, and
-- over quantities of whole thousandths they claim of every requisition line what the list claims.
pub fold_claims_lem :
    (src : List ClaimSrc)
    → Exact src
    → Ascending (fold_claims src)
      × ((prq line : ℕ) → claim_on prq line (fold_claims src) ≡ claim_on prq line src)
unfolding fold_claims
fold_claims_lem src h = (
  sort_claims-Ascending (fold_all [] src) (fold_all-Distinct src [] tt),
  λ prq line.
      rw (claim_on-sort_claims prq line (fold_all [] src), claim_on-fold_all prq line src [] tt h)
        (omega int_laws),
)
