-- ===== src/Orders/Kept.antt =====
-- What sending, calling off, booking in and closing short keep of the procurement list:
-- apps/api/src/modules/purchaseorders/service.ts and modules/grn/service.ts.
use rch.Prelude.{
  ℕ, ◌+◌, ◌≡◌, inl, inr, true, not, some, List, [], ◌∷◌, ◌==◌, ==_iff, Bool-cases, every, any,
  length, All-append, pos, ◌≤ℤ◌, ◌==ℤ◌, round3, round3-IsMilli, IsMilli, ok, require, ok_inj,
  >>=-eq-ok, guard-eq-ok, require-eq-ok,
}
use rch.Workflow.Status.{PoStatus, po_coded}
use rch.Workflow.Table.{can_transition}
use rch.Workflow.Tables.{po_transitions}
use rch.Purchasing.Receipt.{ReceiptCheckInput, receipt_status}
use rch.Purchasing.Claims.{shortfall_of, shortfall_claims}
use rch.Purchasing.Claims.Folding.{Exact}
use rch.Purchasing.Claims.Releasing.{release_claim_lem}
use rch.Orders.{PoLine, PurchaseOrder, Buying, given_back, head, return_claims}
use rch.Orders.Placing.{send, sources, cancel}
use rch.Orders.Booking.{
  after_receipt, ReceivePoBody, arrived, expects, none_rejected_alone, all_fit, grn_count,
  as_ordered, book, receive, short_lines, is_partly, close_short,
}
use rch.Orders.Undecided.{add_ordered-IsUndecided}
use rch.Orders.Within.{NonNeg, given_back-IsWithin, release_claim-Exact}
use rch.Orders.Bought.{
  AreClaims, IsBought, put-AreClaims, low_of_claims, Exact-of_claims, parts_low, sources-claims,
}

pub receive-done :
    (by id : ℕ) (body : ReceivePoBody) (today : ℕ) (s : Buying) {t : Buying}
    → receive by id body today s ≡ ok t
    → (o : PurchaseOrder) × (s.orders id ≡ some o)
      × (length body.lines ≡ length o.lines)
      × (all_fit o.lines body.lines today ≡ true)
      × (after_receipt by id o (book by id (grn_count id s.grns) o.lines body.lines) s ≡ t)
unfolding receive
receive-done by id body today s done =
    let (o, at, h1) = >>=-eq-ok (head s id) _ done in
    let (_, h2) = guard-eq-ok (expects o.status) _ _ h1 in
    let (_, h3) = guard-eq-ok (not (length body.dc == 0)) _ _ h2 in
    let (same, h4) = guard-eq-ok (length body.lines == length o.lines) _ _ h3 in
    let (_, h5) = guard-eq-ok (any arrived body.lines) _ _ h4 in
    let (_, h6) = guard-eq-ok (none_rejected_alone body.lines) _ _ h5 in
    let (fits, h7) = guard-eq-ok (all_fit o.lines body.lines today) _ _ h6 in
    let b = book by id (grn_count id s.grns) o.lines body.lines in
    let (_, h8) =
      guard-eq-ok (can_transition po_transitions o.status (receipt_status (as_ordered b.lines))) _ _
        h7 in
    (o, require-eq-ok _ _ at, (==_iff (length body.lines) (length o.lines)).0 same, fits, ok_inj h8)

pub send-IsBought :
    (by id today : ℕ) (s : Buying) {t : Buying}
    → IsBought s
    → send by id today s ≡ ok t
    → IsBought t
unfolding send
send-IsBought by id today s h done =
    let (o, at, h1) = >>=-eq-ok (head s id) _ done in
    let (_, h2) = guard-eq-ok (not (length o.lines == 0)) _ _ h1 in
    let (v, _, h3) = >>=-eq-ok (require (s.vendors o.vendor) _) _ h2 in
    let (_, h4) = guard-eq-ok v.active _ _ h3 in
    let (_, h5) = guard-eq-ok (can_transition po_transitions o.status PoStatus.ordered) _ _ h4 in
    rw (← ok_inj h5) (record {
      within = h.within;
      undecided = h.undecided;
      claims = put-AreClaims id _ s.orders (h.claims id o (require-eq-ok _ _ at)) h.claims;
    })

pub cancel-IsBought :
    (by id : ℕ) (reason : List ℕ) (s : Buying) {t : Buying}
    → IsBought s
    → cancel by id reason s ≡ ok t
    → IsBought t
unfolding cancel return_claims
cancel-IsBought by id reason s h done =
    let (o, at, h1) = >>=-eq-ok (head s id) _ done in
    let (_, h2) = guard-eq-ok (every (λ l. l.recv ==ℤ pos 0) o.lines) _ _ h1 in
    let (_, h3) = guard-eq-ok (can_transition po_transitions o.status PoStatus.cancelled) _ _ h2 in
    let (_, h4) = guard-eq-ok (not (length reason == 0)) _ _ h3 in
    let own = h.claims id o (require-eq-ok _ _ at) in
    let all = sources-claims o.lines own in
    rw (← ok_inj h4) (record {
      within =
          given_back-IsWithin (sources o.lines) s.requisitions (Exact-of_claims _ all)
            (low_of_claims _ all) h.within;
      undecided = add_ordered-IsUndecided _ given_back s.requisitions h.undecided;
      claims = put-AreClaims id _ s.orders own h.claims;
    })

short-Exact : (ls : List PoLine) → Exact (shortfall_claims (short_lines ls))
unfolding shortfall_claims shortfall_of
short-Exact [] = tt
short-Exact (l ∷ ls) =
    All-append (λ x. IsMilli x.qty) _ _ (release_claim-Exact l.src _) (short-Exact ls)

short-low : (ls : List PoLine) → AreClaims ls → NonNeg (shortfall_claims (short_lines ls))
unfolding shortfall_claims shortfall_of
short-low [] h = tt
short-low (l ∷ ls) ((exact, own), h) =
    let (_, _, freed, _) = release_claim_lem l.src (round3 _) (round3-IsMilli _) own in
    All-append (λ x. pos 0 ≤ℤ x.qty) _ _ (parts_low _ freed) (short-low ls h)

pub close_short-IsBought :
    (by id : ℕ) (reason : List ℕ) (s : Buying) {t : Buying}
    → IsBought s
    → close_short by id reason s ≡ ok t
    → IsBought t
unfolding close_short
close_short-IsBought by id reason s h done =
    let (o, at, h1) = >>=-eq-ok (head s id) _ done in
    let (_, h2) = guard-eq-ok (not (length reason == 0)) _ _ h1 in
    let (_, h3) = guard-eq-ok (is_partly o.status) _ _ h2 in
    let own = h.claims id o (require-eq-ok _ _ at) in
    rw (← ok_inj h3) (record {
      within =
          given_back-IsWithin (shortfall_claims (short_lines o.lines)) s.requisitions
            (short-Exact o.lines) (short-low o.lines own) h.within;
      undecided = add_ordered-IsUndecided _ given_back s.requisitions h.undecided;
      claims = put-AreClaims id _ s.orders own h.claims;
    })

book-AreClaims :
    (by id n : ℕ) (ls : List PoLine) (rs : List ReceiptCheckInput)
    → AreClaims ls
    → AreClaims (book by id n ls rs).lines
unfolding book
book-AreClaims by id n [] rs h = tt
book-AreClaims by id n (l ∷ ls) [] h = h
book-AreClaims by id n (l ∷ ls) (r ∷ rs) (own, h) = elim (Bool-cases (arrived r)) [
  | inl e ↦ rw e (own, book-AreClaims by id (n + 1) ls rs h)
  | inr e ↦ rw e (own, book-AreClaims by id n ls rs h)
]

pub receive-IsBought :
    (by id : ℕ) (body : ReceivePoBody) (today : ℕ) (s : Buying) {t : Buying}
    → IsBought s
    → receive by id body today s ≡ ok t
    → IsBought t
receive-IsBought by id body today s h done =
    let (o, found, _, _, result) = receive-done by id body today s done in
    rw (← result) (record {
      within = h.within;
      undecided = h.undecided;
      claims =
          put-AreClaims id _ s.orders
            (book-AreClaims by id (grn_count id s.grns) o.lines body.lines (h.claims id o found))
            h.claims;
    })
