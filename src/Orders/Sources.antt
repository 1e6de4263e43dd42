-- ===== src/Orders/Sources.antt =====
-- What the lines of a draft claim is what was picked: `create` of
-- apps/api/src/modules/purchaseorders/service.ts.
use rch.Prelude.{
  ℕ, ◌≡◌, refl, inl, inr, ◌&&◌, List, [], ◌∷◌, ◌++◌, ◌==◌, if◌then◌else◌, Bool-cases, All,
  All-append, ℤ, pos, ◌+ℤ◌, int_laws, parts_of_eq, round3_self, round3-IsMilli, IsMilli,
  sum_of-append,
}
use rch.Workflow.Status.{po_coded}
use rch.Purchasing.Claims.{ClaimSrc}
use rch.Purchasing.Claims.Folding.{claim_on, Exact}
use rch.Orders.{PoLine, Buying, stored_src, written_lines}
use rch.Orders.Drafting.{item_at, merge_pick, merge_picks, priced}
use rch.Orders.Placing.{sources}

abbrev pub AreExact : List PoLine → Type 0
AreExact lines = All (λ l. Exact l.src) lines

module _ (p l : ℕ) where
  claim_on-append :
      (xs ys : List ClaimSrc) → claim_on p l (xs ++ ys) ≡ claim_on p l xs +ℤ claim_on p l ys
  claim_on-append xs ys =
      sum_of-append (λ x. if (x.prq == p) && (x.line == l) then x.qty else pos 0) xs ys

  stored_src-same : (xs : List ClaimSrc) → Exact xs → claim_on p l (stored_src xs) ≡ claim_on p l xs
  stored_src-same [] h = refl
  stored_src-same (x ∷ xs) (hx, h) = rw (round3_self x.qty hx, stored_src-same xs h) refl

  pub written_lines-same :
      (ls : List PoLine)
      → AreExact ls
      → claim_on p l (sources (written_lines ls)) ≡ claim_on p l (sources ls)
  written_lines-same [] h = refl
  written_lines-same (x ∷ ls) (hx, h) =
      rw
        (
          claim_on-append (stored_src x.src) (sources (written_lines ls)),
          claim_on-append x.src (sources ls),
          stored_src-same x.src hx,
          written_lines-same ls h,
        )
        refl

  pub priced-same :
      (s : Buying) (vendor today : ℕ) (rates : List (ℕ × ℤ)) (ls : List PoLine)
      → sources (priced s vendor today rates ls) ≡ sources ls
  priced-same s vendor today rates [] = refl
  priced-same s vendor today rates (x ∷ ls) = rw (priced-same s vendor today rates ls) refl

  -- A pick joins the sources of one line.
  merge_pick-sources :
      (it : ℕ) (x : ClaimSrc) (ls : List PoLine)
      → claim_on p l (sources (merge_pick it x ls))
        ≡ claim_on p l (sources ls) +ℤ claim_on p l (x ∷ [])
  unfolding merge_pick
  merge_pick-sources it x [] = omega int_laws
  merge_pick-sources it x (y ∷ ls) =
      let ih = parts_of_eq _ _ (merge_pick-sources it x ls) in
      elim (Bool-cases (y.it == it)) [
        | inl e ↦
            rw
              (
                e,
                claim_on-append (y.src ++ x ∷ []) (sources ls),
                claim_on-append y.src (x ∷ []),
                claim_on-append y.src (sources ls),
              )
              (omega int_laws)
        | inr e ↦
            rw
              (
                e,
                claim_on-append y.src (sources (merge_pick it x ls)),
                claim_on-append y.src (sources ls),
              )
              (omega (int_laws, ih))
      ]

  pub merge_picks-sources :
      (s : Buying) (ps : List ClaimSrc) (ls : List PoLine)
      → claim_on p l (sources (merge_picks s ps ls)) ≡ claim_on p l (sources ls) +ℤ claim_on p l ps
  unfolding merge_picks
  merge_picks-sources s [] ls = omega int_laws
  merge_picks-sources s (x ∷ ps) ls =
      let one_more = parts_of_eq _ _ (merge_pick-sources (item_at s x.prq x.line) x ls) in
      let rest =
        parts_of_eq _ _ (merge_picks-sources s ps (merge_pick (item_at s x.prq x.line) x ls)) in
      omega (int_laws, one_more, rest)

merge_pick-AreExact :
    (it : ℕ) (x : ClaimSrc) (ls : List PoLine)
    → IsMilli x.qty
    → AreExact ls
    → AreExact (merge_pick it x ls)
unfolding merge_pick
merge_pick-AreExact it x [] hx h = ((hx, tt), tt)
merge_pick-AreExact it x (y ∷ ls) hx (own, h) = elim (Bool-cases (y.it == it)) [
  | inl e ↦ rw e (All-append (λ z. IsMilli z.qty) y.src (x ∷ []) own (hx, tt), h)
  | inr e ↦ rw e (own, merge_pick-AreExact it x ls hx h)
]

pub merge_picks-AreExact :
    (s : Buying) (ps : List ClaimSrc) (ls : List PoLine)
    → Exact ps
    → AreExact ls
    → AreExact (merge_picks s ps ls)
unfolding merge_picks
merge_picks-AreExact s [] ls hp h = h
merge_picks-AreExact s (x ∷ ps) ls (hx, hp) h =
    merge_picks-AreExact s ps _ hp (merge_pick-AreExact (item_at s x.prq x.line) x ls hx h)

pub priced-AreExact :
    (s : Buying) (vendor today : ℕ) (rates : List (ℕ × ℤ)) (ls : List PoLine)
    → AreExact ls
    → AreExact (priced s vendor today rates ls)
priced-AreExact s vendor today rates [] h = tt
priced-AreExact s vendor today rates (x ∷ ls) h = (h.0, priced-AreExact s vendor today rates ls h.1)

stored_src-Exact : (xs : List ClaimSrc) → Exact (stored_src xs)
stored_src-Exact [] = tt
stored_src-Exact (x ∷ xs) = (round3-IsMilli x.qty, stored_src-Exact xs)

pub written-Exact : (ls : List PoLine) → Exact (sources (written_lines ls))
written-Exact [] = tt
written-Exact (x ∷ ls) =
    All-append (λ z. IsMilli z.qty) (stored_src x.src) _ (stored_src-Exact x.src) (written-Exact ls)
