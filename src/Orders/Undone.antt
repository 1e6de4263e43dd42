-- ===== src/Orders/Undone.antt =====
-- A draft that is called off gives back all that it took: `create` and `cancel` of
-- apps/api/src/modules/purchaseorders/service.ts.
use rch.Prelude.{
  ℕ, ◌+◌, ◌≡◌, ◌≢◌, refl, sym, ap, ◌∙◌, inl, inr, true, false, not, Option, Option-cases, List, [],
  ◌∷◌, ◌==◌, ==_iff, every, length, arith, ℤ, pos, ◌+ℤ◌, ◌-ℤ◌, ◌==ℤ◌, ltb_ℤ, int_laws, add-IsMilli,
  ok, require, ok_inj, >>=-eq-ok, guard-eq-ok,
}
use rch.Workflow.Status.{PoStatus, po_coded}
use rch.Workflow.Table.{can_transition}
use rch.Workflow.Tables.{po_transitions}
use rch.Purchasing.Claims.{ClaimSrc, fold_claims}
use rch.Purchasing.Claims.Folding.{claim_on, Exact, fold_claims_lem}
use rch.Orders.{
  Requisition, PoLine, Vendor, Buying, taken, given_back, line_at, add_ordered, return_claims,
  written_lines, logged, with_order, order_is, sync_contract_rates,
}
use rch.Orders.Drafting.{
  CreatePoBody, picked, check_picks, given_rates, merge_picks, priced, draft_of, create,
}
use rch.Orders.Placing.{sources, cancel}
use rch.Orders.Pending.{add_ordered-line_at, add_ordered-none}
use rch.Orders.Within.{IsWithin, fold_claims-Exact, claim_on-IsMilli}
use rch.Orders.Bought.{picked-Exact}
use rch.Orders.Sources.{
  written_lines-same, priced-same, merge_picks-sources, merge_picks-AreExact, priced-AreExact,
  written-Exact,
}

none_received : (ls : List PoLine) → every (λ x. x.recv ==ℤ pos 0) (written_lines ls) ≡ true
none_received [] = refl
none_received (x ∷ ls) = none_received ls

-- What is taken of a line and given back leaves the line as it was.
there_and_back :
    (xs ys : List ClaimSrc) (rows : ℕ → Option Requisition) (p l : ℕ)
    → Exact xs
    → Exact ys
    → IsWithin rows
    → claim_on p l ys ≡ claim_on p l xs
    → line_at (add_ordered ys given_back (add_ordered xs taken rows)) p l ≡ line_at rows p l
there_and_back xs ys rows p l hx hy w same = elim (Option-cases (line_at rows p l)) [
  | inl missing ↦
      add_ordered-none ys given_back (add_ordered xs taken rows) p l
        (add_ordered-none xs taken rows p l missing)
      ∙ sym missing
  | inr (x, e) ↦
      let (_, exact, _) = w p l x e in
      let there = add_ordered-line_at xs taken rows p l hx exact e in
      let exact' = add-IsMilli x.ordered (claim_on p l xs) exact (claim_on-IsMilli p l xs hx) in
      let back =
        add_ordered-line_at ys given_back (add_ordered xs taken rows) p l hy exact' there in
      let level : x.ordered +ℤ claim_on p l xs +ℤ (pos 0 -ℤ claim_on p l xs) ≡ x.ordered =
        omega int_laws in
      rw (back, e, same, level) refl
]

-- The state that a draft leaves.
abbrev drafted : ℕ → CreatePoBody → ℕ → Buying → Vendor → List (ℕ × ℤ) → Buying
drafted by body today s v rates = logged s.next_po (order_is PoStatus.draft) by (
    with_order s.next_po
      (draft_of body.vendor v today
        (priced s body.vendor today rates (merge_picks s (picked body.picks) [])))
      (record s {
        requisitions = add_ordered (fold_claims (picked body.picks)) taken s.requisitions;
        contracts = sync_contract_rates body.vendor today rates s.contracts;
        next_po = s.next_po + 1;
      }))

create-done :
    (by : ℕ) (body : CreatePoBody) (today : ℕ) (s : Buying) {t : Buying}
    → create by body today s ≡ ok t
    → (v : Vendor) × (rates : List (ℕ × ℤ)) × (drafted by body today s v rates ≡ t)
unfolding create
create-done by body today s done =
    let (_, h1) = guard-eq-ok (not (length body.picks == 0)) _ _ done in
    let (v, _, h2) = >>=-eq-ok (require (s.vendors body.vendor) _) _ h1 in
    let (_, h3) = guard-eq-ok v.active _ _ h2 in
    let (_, h4) = guard-eq-ok (every (λ p. ltb_ℤ (pos 0) p.qty) body.picks) _ _ h3 in
    let (_, _, h5) = >>=-eq-ok (check_picks s (fold_claims (picked body.picks))) _ h4 in
    let (rates, _, h6) = >>=-eq-ok (given_rates s body.picks []) _ h5 in (v, rates, ok_inj h6)

said : (reason : List ℕ) → reason ≢ [] → (length reason == 0) ≡ false
said [] h = absurd (h refl)
said (c ∷ cs) h = ground arith

module _ (by by' : ℕ) (body : CreatePoBody) (today : ℕ) (s : Buying) (reason : List ℕ) where
  lines_of : List (ℕ × ℤ) → List PoLine
  lines_of rates = priced s body.vendor today rates (merge_picks s (picked body.picks) [])

  same_claims :
      (rates : List (ℕ × ℤ)) (p l : ℕ)
      → claim_on p l (fold_claims (sources (written_lines (lines_of rates))))
        ≡ claim_on p l (fold_claims (picked body.picks))
  unfolding lines_of
  same_claims rates p l =
      let ps = picked body.picks in
      let exact = picked-Exact body.picks in
      let merged = merge_picks-AreExact s ps [] exact tt in
      let plain : pos 0 +ℤ claim_on p l ps ≡ claim_on p l ps = omega int_laws in
      (fold_claims_lem (sources (written_lines (lines_of rates)))
          (written-Exact (lines_of rates))).1
        p l
      ∙ written_lines-same p l (lines_of rates) (priced-AreExact s body.vendor today rates _ merged)
      ∙ ap (claim_on p l) (priced-same p l s body.vendor today rates (merge_picks s ps []))
      ∙ merge_picks-sources p l s ps []
      ∙ plain
      ∙ sym ((fold_claims_lem ps exact).1 p l)

  -- The state with the draft called off.
  abbrev off : Vendor → List (ℕ × ℤ) → Buying
  off v rates =
      let t = drafted by body today s v rates in
      logged s.next_po (order_is PoStatus.cancelled) by' (
        with_order s.next_po
          (record (draft_of body.vendor v today (lines_of rates)) { status = PoStatus.cancelled })
          (return_claims (sources (written_lines (lines_of rates))) t))

  goes_back :
      (v : Vendor) (rates : List (ℕ × ℤ))
      → reason ≢ []
      → cancel by' s.next_po reason (drafted by body today s v rates) ≡ ok (off v rates)
  unfolding cancel can_transition po_transitions lines_of
  goes_back v rates reasoned =
      rw ((==_iff s.next_po s.next_po).1 refl, none_received (lines_of rates), said reason reasoned)
        refl

  -- A draft that is called off, with a reason, is called off without refusal, and then every line of
  -- every requisition is what it was before the draft, in whatever picks and however often a line
  -- was picked. No line is ordered beyond what it was approved for before.
  pub cancel-create :
      {t : Buying}
      → IsWithin s.requisitions
      → create by body today s ≡ ok t
      → reason ≢ []
      → (u : Buying) × (cancel by' s.next_po reason t ≡ ok u)
        × ((p l : ℕ) → line_at u.requisitions p l ≡ line_at s.requisitions p l)
  unfolding return_claims
  cancel-create {t} w done reasoned =
      let (v, rates, result) = create-done by body today s done in
      (
        off v rates,
        rw (← result) (goes_back v rates reasoned),
        λ p l.
            there_and_back (fold_claims (picked body.picks))
              (fold_claims (sources (written_lines (lines_of rates)))) s.requisitions p l
              (fold_claims-Exact (picked body.picks))
              (fold_claims-Exact (sources (written_lines (lines_of rates)))) w
              (same_claims rates p l),
      )
