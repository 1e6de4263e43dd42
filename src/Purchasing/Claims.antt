-- ===== src/Purchasing/Claims.antt =====
-- The claims of a purchase-order line on the requisition lines that funded it:
-- packages/domain/src/claims.ts.
pub mod Releasing
pub mod Folding
use rch.Prelude.{
  ℕ, ◌≡◌, Bool, ◌&&◌, ◌||◌, Option, none, some, List, [], ◌∷◌, ◌++◌, ◌==◌, ltb, if◌then◌else◌, ℤ,
  pos, ◌+ℤ◌, ◌-ℤ◌, ltb_ℤ, min_ℤ, max_ℤ, round3,
}
use mathlib.Core.List.{reverse}
use rch.Purchasing.Receipt.{net_received, ReceivedLine}

-- Requisition numbers are compared and ordered only, so they are naturals.
pub record ClaimSrc : Type 0 where
  pub prq : ℕ
  pub line : ℕ
  pub qty : ℤ

pub record Release : Type 0 where
  pub owed : ℤ
  pub released : List ClaimSrc
  pub left : List ClaimSrc

-- One turn of the loop: `push` for what is released, `unshift` for what is kept.
unfoldable pub release_step : Release → ClaimSrc → Release
release_step s x =
    let take = min_ℤ s.owed x.qty in
    let keep = round3 (x.qty -ℤ take) in
    record {
      owed = round3 (s.owed -ℤ take);
      released =
          if ltb_ℤ (pos 0) take
          then s.released ++ record x { qty = round3 take } ∷ []
          else s.released;
      left = if ltb_ℤ (pos 0) keep then record x { qty = keep } ∷ s.left else s.left;
    }

unfoldable pub release_loop : List ClaimSrc → Release → Release
release_loop [] s = s
release_loop (x ∷ xs) s = release_loop xs (release_step s x)

unfoldable pub release_claim : List ClaimSrc → ℤ → Release
release_claim src give =
    release_loop (reverse src)
      (record { owed = round3 (max_ℤ (pos 0) give); released = []; left = [] })

abbrev pub same_key : ClaimSrc → ClaimSrc → Bool
same_key a b = (a.prq == b.prq) && (a.line == b.line)

-- `by.get(key)`, then the addition to the entry or a new entry behind the others.
unfoldable pub fold_into : List ClaimSrc → ClaimSrc → List ClaimSrc
fold_into [] x = record x { qty = round3 x.qty } ∷ []
fold_into (at ∷ by) x =
    if same_key at x then record at { qty = round3 (at.qty +ℤ x.qty) } ∷ by else at ∷ fold_into by x

unfoldable pub fold_all : List ClaimSrc → List ClaimSrc → List ClaimSrc
fold_all by [] = by
fold_all by (x ∷ xs) = fold_all (fold_into by x) xs

-- The order of the sort: by requisition, then by line.
abbrev pub before : ClaimSrc → ClaimSrc → Bool
before a b = ltb a.prq b.prq || ((a.prq == b.prq) && ltb a.line b.line)

-- `Array.prototype.sort` by that order, as an insertion sort.
unfoldable pub insert_sorted : ClaimSrc → List ClaimSrc → List ClaimSrc
insert_sorted x [] = x ∷ []
insert_sorted x (y ∷ ys) = if before y x then y ∷ insert_sorted x ys else x ∷ y ∷ ys

unfoldable pub sort_claims : List ClaimSrc → List ClaimSrc
sort_claims [] = []
sort_claims (x ∷ xs) = insert_sorted x (sort_claims xs)

unfoldable pub fold_claims : List ClaimSrc → List ClaimSrc
fold_claims src = sort_claims (fold_all [] src)

pub record ShortLine : Type 0 where
  pub qty : ℤ
  pub received : ReceivedLine
  pub src : List ClaimSrc

-- What never arrived, of one line and of all.
unfoldable pub shortfall_of : ShortLine → List ClaimSrc
shortfall_of l =
    (release_claim l.src (round3 (max_ℤ (pos 0) (l.qty -ℤ net_received l.received)))).released

unfoldable pub shortfall_claims : List ShortLine → List ClaimSrc
shortfall_claims [] = []
shortfall_claims (l ∷ ls) = shortfall_of l ++ shortfall_claims ls
