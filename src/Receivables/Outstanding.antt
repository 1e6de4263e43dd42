-- ===== src/Receivables/Outstanding.antt =====
-- The two reads of an account, `outstandingFor` and `openBillsFor` of apps/api/src/lib/credit.ts,
-- before and after a settlement is recorded or voided.
use rch.Prelude.{
  ℕ, ◌≡◌, refl, sym, ap, inl, inr, Bool, true, false, ◌&&◌, not, List, [], ◌∷◌, ◌==◌, Bool-cases,
  filter, ℤ, pos, ◌+ℤ◌, int_laws, ltb_ℤ, parts_of_eq, sum_of,
}
use rch.Credit.{PayerKind}
use rch.Receivables.{
  Bill, Settlement, SettlementLine, Books, kind_code, charges, settles, charged_for, settled_for,
  joined, settled_on, open_bills_for, open_rows, void_one, void_rows, set_voided,
}

joined-amounts :
    (books books' : Books) (bill : ℕ) (ls : List SettlementLine)
    → sum_of (λ row. row.0.amount) (joined books bill ls)
      ≡ sum_of (λ row. row.0.amount) (joined books' bill ls)
joined-amounts books books' bill [] = refl
joined-amounts books books' bill (l ∷ ls) = elim (Bool-cases (l.bill_no == bill)) [
  | inl e ↦ rw (e, joined-amounts books books' bill ls) refl
  | inr e ↦ rw (e, joined-amounts books books' bill ls) refl
]

open_rows-voided :
    (id : ℕ) (books : Books) (bs : List Bill)
    → open_rows (set_voided id books) bs ≡ open_rows books bs
unfolding settled_on set_voided
open_rows-voided id books [] = refl
open_rows-voided id books (b ∷ bs) =
    rw
      (
        joined-amounts (set_voided id books) books b.no books.settlement_lines,
        open_rows-voided id books bs,
      )
      refl

-- What the live settlements of that number took from the payer.
abbrev pub taken_by : ℕ → PayerKind → ℕ → Books → ℤ
taken_by id kind payer books =
    sum_of (λ s. s.amount) (filter (λ s. settles kind payer s && (s.id == id)) books.settlements)

gone : (a b c : Bool) → (a && b && not true) ≡ ((a && b && c) && false)
gone true true true = refl
gone true true false = refl
gone true false c = refl
gone false b c = refl

and_true : (b : Bool) → (b && true) ≡ b
and_true true = refl
and_true false = refl

settles-void_one :
    (id : ℕ) (kind : PayerKind) (payer : ℕ) (s : Settlement)
    → settles kind payer (void_one id s) ≡ (settles kind payer s && not (s.id == id))
settles-void_one id kind payer s = elim (Bool-cases (s.id == id)) [
  | inl e ↦ rw e (gone (kind_code s.kind == kind_code kind) (s.payer_id == payer) (not s.voided))
  | inr e ↦ rw e (sym (and_true (settles kind payer s)))
]

rows_voided :
    (id : ℕ) (kind : PayerKind) (payer : ℕ) (ss : List Settlement)
    → sum_of (λ s. s.amount) (filter (settles kind payer) (void_rows id ss))
        +ℤ sum_of (λ s. s.amount) (filter (λ s. settles kind payer s && (s.id == id)) ss)
      ≡ sum_of (λ s. s.amount) (filter (settles kind payer) ss)
rows_voided id kind payer [] = omega int_laws
rows_voided id kind payer (s ∷ ss) =
    let ih = parts_of_eq _ _ (rows_voided id kind payer ss) in
    elim (Bool-cases (settles kind payer s)) [
      | inl live ↦ elim (Bool-cases (s.id == id)) [
        | inl e ↦ rw (settles-void_one id kind payer s, live, e) (omega (int_laws, ih))
        | inr e ↦ rw (settles-void_one id kind payer s, live, e) (omega (int_laws, ih))
      ]
      | inr dead ↦ rw (settles-void_one id kind payer s, dead) (rows_voided id kind payer ss)
    ]

-- Voiding a settlement takes its amount out of what counts as settled, and changes nothing in the
-- open bills of any payer: the bills that its lines closed stay closed.
pub set_voided-open_bills_for :
    (id : ℕ) (books : Books) (kind : PayerKind) (payer : ℕ)
    → (open_bills_for (set_voided id books) kind payer ≡ open_bills_for books kind payer)
      × (settled_for (set_voided id books) kind payer +ℤ taken_by id kind payer books
          ≡ settled_for books kind payer)
      × (charged_for (set_voided id books) kind payer ≡ charged_for books kind payer)
unfolding open_bills_for set_voided
set_voided-open_bills_for id books kind payer = (
  ap (λ rows. filter (λ b. ltb_ℤ (pos 0) b.owed) rows)
      (open_rows-voided id books (filter (charges kind payer) books.bills)),
  rows_voided id kind payer books.settlements,
  refl,
)
