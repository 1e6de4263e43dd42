-- ===== src/Orders/Shelving.antt =====
-- What a line of a delivery puts on the two shelves: `receive` of
-- apps/api/src/modules/grn/service.ts.
use rch.Prelude.{
  ℕ, ◌≡◌, refl, sym, ap, ◌∙◌, inl, inr, Bool, true, false, ◌&&◌, not, some, is_some, List, [], ◌∷◌,
  ◌++◌, ◌==◌, if◌then◌else◌, Bool-cases, Option-cases, ℤ, pos, ◌+ℤ◌, ◌-ℤ◌, ◌≤ℤ◌, ltb_ℤ,
  le_of_not_ltb, int_laws, round3, round3_self, round3-IsMilli,
}
use rch.Catalog.{store_key, quarantine_key}
use rch.Ledger.{MoveKind, grn_accept, grn_reject, Move, stored, moved}
use rch.Ledger.Cache.{moved-append}
use rch.Tickets.Sending.{round3_low}
use rch.Purchasing.Receipt.{ReceiptCheckLine, ReceiptCheckInput, check_receipt_line, net_received}
use rch.Purchasing.Receipt.Accepting.{check_receipt_line_iff}
use rch.Orders.{PoLine}
use rch.Orders.Booking.{received_on, line_fits, accepted_of, grn_move, line_moves}

abbrev pub turned_away : ReceiptCheckInput → ℤ
turned_away r = round3 r.rejected

pub stored-append : (xs ys : List Move) → stored (xs ++ ys) ≡ stored xs ++ stored ys
stored-append [] ys = refl
stored-append (m ∷ xs) ys = rw (stored-append xs ys) refl

pub moved_both :
    (l i : ℕ) (xs ys : List Move)
    → moved l i (stored (xs ++ ys)) ≡ moved l i (stored xs) +ℤ moved l i (stored ys)
moved_both l i xs ys = rw (stored-append xs ys) (moved-append l i (stored xs) (stored ys))

pub fits_low :
    (l : PoLine) (r : ReceiptCheckInput) (today : ℕ)
    → line_fits l r today ≡ true
    → (pos 0 ≤ℤ accepted_of r) × (pos 0 ≤ℤ r.rejected)
unfolding net_received
fits_low l r today h =
    let line : ReceiptCheckLine = record {
      ordered = l.qty;
      received_before = net_received (received_on l);
    } in
    elim (Option-cases (check_receipt_line line r today)) [
      | inl clean ↦
          let (_, low, le, _, _) = (check_receipt_line_iff line r today).0 clean in
          (round3_low (r.recv -ℤ r.rejected) (omega (int_laws, le)), low)
      | inr (bad, e) ↦
          let broken : not (is_some (some bad)) ≡ true = ap (λ o. not (is_some o)) (sym e) ∙ h in cc
    ]

one_move :
    (loc : ℕ) (kind : MoveKind) (it : ℕ) (q : ℤ) (receipt by l i : ℕ) (b : Bool)
    → moved l i (stored (if b then grn_move loc kind it q receipt by ∷ [] else []))
      ≡ (if b && ((loc == l) && (it == i)) then round3 q else pos 0)
one_move loc kind it q receipt by l i false = refl
one_move loc kind it q receipt by l i true = elim (Bool-cases ((loc == l) && (it == i))) [
  | inl e ↦ rw e (omega int_laws)
  | inr e ↦ rw e refl
]

nothing_of : (q : ℤ) → pos 0 ≤ℤ q → ltb_ℤ (pos 0) q ≡ false → q ≡ pos 0
nothing_of q low h = omega (int_laws, low, le_of_not_ltb (pos 0) q h)

round3_zero : round3 (pos 0) ≡ pos 0
unfolding round3
round3_zero = refl

module _ (l : PoLine) (r : ReceiptCheckInput) (receipt by i : ℕ) where
  -- Both moves of a line, at one cell.
  line-moved :
      (shelf : ℕ)
      → moved shelf i (stored (line_moves l r receipt by))
        ≡ (if ltb_ℤ (pos 0) (accepted_of r) && ((store_key == shelf) && (l.it == i))
            then round3 (accepted_of r)
            else pos 0)
          +ℤ (if ltb_ℤ (pos 0) r.rejected && ((quarantine_key == shelf) && (l.it == i))
              then round3 (round3 r.rejected)
              else pos 0)
  line-moved shelf =
      rw
        (
          moved_both shelf i
              (if ltb_ℤ (pos 0) (accepted_of r)
                then grn_move store_key grn_accept l.it (accepted_of r) receipt by ∷ []
                else [])
              _,
          one_move store_key grn_accept l.it (accepted_of r) receipt by shelf i
              (ltb_ℤ (pos 0) (accepted_of r)),
          one_move quarantine_key grn_reject l.it (round3 r.rejected) receipt by shelf i
              (ltb_ℤ (pos 0) r.rejected),
        )
        refl

  no_more : (b : Bool) → (b && false) ≡ false
  no_more true = refl
  no_more false = refl

  pub line-store :
      pos 0 ≤ℤ accepted_of r
      → moved store_key i (stored (line_moves l r receipt by))
        ≡ (if l.it == i then accepted_of r else pos 0)
  unfolding net_received
  line-store low =
      let whole = round3_self (accepted_of r) (round3-IsMilli (r.recv -ℤ r.rejected)) in
      elim (Bool-cases (l.it == i)) [
        | inl here ↦ elim (Bool-cases (ltb_ℤ (pos 0) (accepted_of r))) [
          | inl more ↦
              line-moved store_key
              ∙ rw (here, more, no_more (ltb_ℤ (pos 0) r.rejected), whole) (omega int_laws)
          | inr no_more_of ↦
              let empty = nothing_of (accepted_of r) low no_more_of in
              line-moved store_key
              ∙ rw (here, no_more_of, no_more (ltb_ℤ (pos 0) r.rejected), empty) (omega int_laws)
        ]
        | inr away ↦
            line-moved store_key
            ∙ rw (away, no_more (ltb_ℤ (pos 0) (accepted_of r)), no_more (ltb_ℤ (pos 0) r.rejected))
                (omega int_laws)
      ]

  pub line-quarantine :
      pos 0 ≤ℤ r.rejected
      → moved quarantine_key i (stored (line_moves l r receipt by))
        ≡ (if l.it == i then turned_away r else pos 0)
  line-quarantine low =
      let whole = round3_self (round3 r.rejected) (round3-IsMilli r.rejected) in
      elim (Bool-cases (l.it == i)) [
        | inl here ↦ elim (Bool-cases (ltb_ℤ (pos 0) r.rejected)) [
          | inl more ↦
              line-moved quarantine_key
              ∙ rw (here, more, no_more (ltb_ℤ (pos 0) (accepted_of r)), whole) (omega int_laws)
          | inr no_more_of ↦
              let empty = nothing_of r.rejected low no_more_of in
              line-moved quarantine_key
              ∙ rw (here, no_more_of, no_more (ltb_ℤ (pos 0) (accepted_of r)), empty, round3_zero)
                  (omega int_laws)
        ]
        | inr away ↦
            line-moved quarantine_key
            ∙ rw (away, no_more (ltb_ℤ (pos 0) (accepted_of r)), no_more (ltb_ℤ (pos 0) r.rejected))
                (omega int_laws)
      ]
