-- ===== src/Orders/Writes.antt =====
-- The writes on orders as steps of the state, and what they all keep:
-- apps/api/src/modules/purchaseorders/service.ts and modules/grn/service.ts.
use rch.Prelude.{
  ℕ, ◌≡◌, refl, inl, inr, ◌&&◌, not, Option, none, some, List, [], ◌∷◌, ◌==◌, Bool-cases, every,
  is_some, length, get_elem?, All, ℤ, pos, ◌-ℤ◌, ltb_ℤ, leb_ℤ, ◌==ℤ◌, round3, round3-IsMilli,
  IsMilli, ok, require, ok_inj, >>=-eq-ok, guard-eq-ok, require-eq-ok, ◌||◌,
}
use rch.Workflow.Status.{po_coded}
use rch.Purchasing.Claims.{fold_claims, release_claim}
use rch.Purchasing.Claims.Releasing.{IsClaim, release_claim_lem}
use rch.Orders.{
  contract_rate, PoLine, PurchaseOrder, Buying, head, add_ordered, taken, given_back, return_claims,
}
use rch.Orders.Drafting.{
  CreatePoBody, UpdatePoLineBody, picked, check_picks, given_rates, merge_picks, create, reprice,
  with_lines, change_line, is_draft, update_line, remove_line,
}
use rch.Orders.Patching.{
  PatchPoBody, patch_vendor, patch_eta, repriced, repriced_lines, follows, is_over, patch,
}
use rch.Orders.Undecided.{add_ordered-IsUndecided}
use rch.Orders.Within.{IsWithin, NonNeg, taken-IsWithin, given_back-IsWithin, release_claim-Exact}
use rch.Orders.Bought.{
  AreClaims, IsBought, put-AreClaims, written_lines-AreClaims, lines_low, low_of_claims, parts_low,
  nth-All, set_nth-All, drop_nth-All, merge_picks-low, priced-low, picked-Exact, picked-low,
}

pub create-IsBought :
    (by : ℕ) (body : CreatePoBody) (today : ℕ) (s : Buying) {t : Buying}
    → IsBought s
    → create by body today s ≡ ok t
    → IsBought t
unfolding create
create-IsBought by body today s h done =
    let (_, h1) = guard-eq-ok (not (length body.picks == 0)) _ _ done in
    let (v, _, h2) = >>=-eq-ok (require (s.vendors body.vendor) _) _ h1 in
    let (_, h3) = guard-eq-ok v.active _ _ h2 in
    let (asked, h4) = guard-eq-ok (every (λ p. ltb_ℤ (pos 0) p.qty) body.picks) _ _ h3 in
    let (_, checked, h5) = >>=-eq-ok (check_picks s (fold_claims (picked body.picks))) _ h4 in
    let (rates, _, h6) = >>=-eq-ok (given_rates s body.picks []) _ h5 in
    let lines = merge_picks s (picked body.picks) [] in
    let low =
      priced-low s body.vendor today rates lines
        (merge_picks-low s (picked body.picks) [] (picked-low body.picks asked) tt) in
    rw (← ok_inj h6) (record {
      within = taken-IsWithin s (picked body.picks) (picked-Exact body.picks) h.within checked;
      undecided = add_ordered-IsUndecided _ taken s.requisitions h.undecided;
      claims = put-AreClaims s.next_po _ s.orders (written_lines-AreClaims _ low) h.claims;
    })

-- What a line gives back, and what it keeps.
module _ (s : Buying) (l : PoLine) (give : ℤ) (own : All IsClaim l.src) (exact : IsMilli give) where
  kept_low : NonNeg (release_claim l.src give).left
  kept_low = let (_, _, _, left) = release_claim_lem l.src give exact own in parts_low _ left

  freed_low : NonNeg (release_claim l.src give).released
  freed_low = let (_, _, freed, _) = release_claim_lem l.src give exact own in parts_low _ freed

  freed-IsWithin :
      IsWithin s.requisitions
      → IsWithin
          (add_ordered (fold_claims (release_claim l.src give).released) given_back s.requisitions)
  freed-IsWithin w =
      given_back-IsWithin (release_claim l.src give).released s.requisitions
        (release_claim-Exact l.src give) freed_low w

  returned-IsBought : IsBought s → IsBought (return_claims (release_claim l.src give).released s)
  unfolding return_claims
  returned-IsBought h = record {
    within = freed-IsWithin h.within;
    undecided = add_ordered-IsUndecided _ given_back s.requisitions h.undecided;
    claims = h.claims;
  }

reprice-IsBought :
    (vendor today it : ℕ) (rate : Option ℤ) (s : Buying)
    → IsBought s
    → IsBought (reprice vendor today it rate s)
reprice-IsBought vendor today it none s h = h
reprice-IsBought vendor today it (some r) s h = record {
  within = h.within;
  undecided = h.undecided;
  claims = h.claims;
}

-- An order rewritten with lines of such sources.
written-IsBought :
    (id : ℕ) (o : PurchaseOrder) (ls : List PoLine) (s : Buying)
    → IsBought s
    → All (λ l. NonNeg l.src) ls
    → IsBought (with_lines id o ls s)
written-IsBought id o ls s h low = record {
  within = h.within;
  undecided = h.undecided;
  claims = put-AreClaims id _ s.orders (written_lines-AreClaims ls low) h.claims;
}

change_line-IsBought :
    (id : ℕ) (o : PurchaseOrder) (n : ℕ) (l : PoLine) (qty rate : Option ℤ) (today : ℕ) (s : Buying)
    {t : Buying}
    → IsBought s
    → AreClaims o.lines
    → get_elem? o.lines n ≡ some l
    → change_line id o n l qty rate today s ≡ ok t
    → IsBought t
change_line-IsBought id o n l none rate today s h own found done =
    let low = low_of_claims l.src (nth-All _ n o.lines found own).1 in
    rw (← ok_inj done) (
      reprice-IsBought o.vendor today l.it rate _ (
        written-IsBought id o _ s h
          (set_nth-All (λ x. NonNeg x.src) n _ o.lines low (lines_low o.lines own))))
change_line-IsBought id o n l (some typed) rate today s h own found done =
    let want = round3 typed in
    let (_, h1) = guard-eq-ok (ltb_ℤ (pos 0) want) _ _ done in
    let (_, h2) = guard-eq-ok (leb_ℤ want l.qty) _ _ h1 in
    let mine = (nth-All _ n o.lines found own).1 in
    let give = round3 (l.qty -ℤ want) in
    let exact = round3-IsMilli (l.qty -ℤ want) in
    rw (← ok_inj h2) (
      reprice-IsBought o.vendor today l.it rate _ (
        written-IsBought id o _ _ (returned-IsBought s l give mine exact h) (
          set_nth-All (λ x. NonNeg x.src) n _ o.lines (kept_low s l give mine exact)
            (lines_low o.lines own))))

pub update_line-IsBought :
    (id n : ℕ) (body : UpdatePoLineBody) (today : ℕ) (s : Buying) {t : Buying}
    → IsBought s
    → update_line id n body today s ≡ ok t
    → IsBought t
unfolding update_line
update_line-IsBought id n body today s h done =
    let (o, at, h1) = >>=-eq-ok (head s id) _ done in
    let (_, h2) = guard-eq-ok (is_draft o.status) _ _ h1 in
    let (l, line, h3) = >>=-eq-ok (require (get_elem? o.lines n) _) _ h2 in
    let (_, h4) = guard-eq-ok (is_some body.qty || is_some body.rate) _ _ h3 in
    change_line-IsBought id o n l body.qty body.rate today s h
      (h.claims id o (require-eq-ok _ _ at)) (require-eq-ok _ _ line) h4

pub remove_line-IsBought :
    (id n : ℕ) (s : Buying) {t : Buying} → IsBought s → remove_line id n s ≡ ok t → IsBought t
unfolding remove_line
remove_line-IsBought id n s h done =
    let (o, at, h1) = >>=-eq-ok (head s id) _ done in
    let (_, h2) = guard-eq-ok (is_draft o.status) _ _ h1 in
    let (l, line, h3) = >>=-eq-ok (require (get_elem? o.lines n) _) _ h2 in
    let own = h.claims id o (require-eq-ok _ _ at) in
    let mine = nth-All _ n o.lines (require-eq-ok _ _ line) own in
    rw (← ok_inj h3) (
      written-IsBought id o _ _ (returned-IsBought s l l.qty mine.1 mine.0 h)
        (drop_nth-All (λ x. NonNeg x.src) n o.lines (lines_low o.lines own)))

repriced-src : (to old : Option ℤ) (cost : ℤ) (l : PoLine) → (repriced to old cost l).src ≡ l.src
repriced-src none old cost l = refl
repriced-src (some to) old cost l =
    elim (Bool-cases (ltb_ℤ (pos 0) to && not (l.rate ==ℤ to) && follows old cost l.rate)) [
      | inl e ↦ rw e refl
      | inr e ↦ rw e refl
    ]

repriced_lines-low :
    (s : Buying) (old new today : ℕ) (ls : List PoLine)
    → All (λ l. NonNeg l.src) ls
    → All (λ l. NonNeg l.src) (repriced_lines s old new today ls)
repriced_lines-low s old new today [] h = tt
repriced_lines-low s old new today (l ∷ ls) (own, h) = (
  rw (repriced-src (contract_rate s.contracts new today l.it) _ _ l) own,
  repriced_lines-low s old new today ls h,
)

patch_vendor-AreClaims :
    (s : Buying) (o : PurchaseOrder) (today : ℕ) (vendor : Option ℕ) {u : PurchaseOrder}
    → AreClaims o.lines
    → patch_vendor s o today vendor ≡ ok u
    → AreClaims u.lines
patch_vendor-AreClaims s o today none own done = rw (← ok_inj done) own
patch_vendor-AreClaims s o today (some new) own done =
    let (_, h1) = guard-eq-ok (is_draft o.status) _ _ done in
    let (v, _, h2) = >>=-eq-ok (require (s.vendors new) _) _ h1 in
    let (_, h3) = guard-eq-ok v.active _ _ h2 in
    rw (← ok_inj h3) (
      written_lines-AreClaims _
        (repriced_lines-low s o.vendor new today o.lines (lines_low o.lines own)))

patch_eta-AreClaims :
    (o : PurchaseOrder) (eta : Option ℕ) {u : PurchaseOrder}
    → AreClaims o.lines
    → patch_eta o eta ≡ ok u
    → AreClaims u.lines
patch_eta-AreClaims o none own done = rw (← ok_inj done) own
patch_eta-AreClaims o (some eta) own done =
    let (_, h1) = guard-eq-ok (not (is_over o.status)) _ _ done in rw (← ok_inj h1) own

pub patch-IsBought :
    (id : ℕ) (body : PatchPoBody) (today : ℕ) (s : Buying) {t : Buying}
    → IsBought s
    → patch id body today s ≡ ok t
    → IsBought t
unfolding patch
patch-IsBought id body today s h done =
    let (o, at, h1) = >>=-eq-ok (head s id) _ done in
    let (_, h2) = guard-eq-ok (is_some body.vendor || is_some body.eta) _ _ h1 in
    let (moved, e1, h3) = >>=-eq-ok (patch_vendor s o today body.vendor) _ h2 in
    let (expected, e2, h4) = >>=-eq-ok (patch_eta moved body.eta) _ h3 in
    let own =
      patch_eta-AreClaims moved body.eta
        (patch_vendor-AreClaims s o today body.vendor (h.claims id o (require-eq-ok _ _ at)) e1)
        e2 in
    rw (← ok_inj h4) (record {
      within = h.within;
      undecided = h.undecided;
      claims = put-AreClaims id _ s.orders own h.claims;
    })
