-- ===== src/Receivables/Recording.antt =====
-- What recording a payment does to the account: `record` of
-- apps/api/src/modules/receivables/service.ts.
use rch.Prelude.{
  ℕ, ◌≡◌, refl, inl, inr, Bool, true, false, ◌&&◌, not, List, [], ◌∷◌, ◌++◌, ◌==◌, ==_iff,
  if◌then◌else◌, Bool-cases, filter, All, ℤ, pos, ◌+ℤ◌, ◌-ℤ◌, ◌≤ℤ◌, ◌<ℤ◌, int_laws, ltb_ℤ,
  lt_of_ltb, leb_ℤ, ◌==ℤ◌, le_of_leb, max_ℤ, round2, round2_self, round2-IsCenti, IsCenti,
  sub-IsCenti, add-IsCenti, sum_of,
}
use rch.Credit.{PayerKind, allocate_settlement}
use rch.Receivables.{
  Settlement, Books, kind_code, charges, settles, charged_for, settled_for, outstanding_for,
  open_bills_for, BooksResult, BooksRefusal, done, refused, insert_settlement, record_settlement,
}

module _ {A : Type 0} (p : A → Bool) (f : A → ℤ) where
  pub filter-IsCenti :
      (xs : List A) → All (λ x. IsCenti (f x)) xs → IsCenti (sum_of f (filter p xs))
  filter-IsCenti [] h = (refl, refl)
  filter-IsCenti (x ∷ xs) (hx, hs) = elim (Bool-cases (p x)) [
    | inl e ↦ rw e (add-IsCenti (f x) (sum_of f (filter p xs)) hx (filter-IsCenti xs hs))
    | inr e ↦ rw e (filter-IsCenti xs hs)
  ]

  pub filter-snoc :
      (xs : List A) (x : A)
      → p x ≡ true
      → sum_of f (filter p (xs ++ x ∷ [])) ≡ sum_of f (filter p xs) +ℤ f x
  filter-snoc [] x h = rw h (omega int_laws)
  filter-snoc (y ∷ ys) x h =
      let ih = filter-snoc ys x h in
      elim (Bool-cases (p y)) [ inl e ↦ rw (e, ih) (omega int_laws) | inr e ↦ rw e ih ]

unguard :
    (b : Bool) (r : BooksRefusal) (o : BooksResult) (after : Books)
    → (if not b then refused r else o) ≡ done after
    → (b ≡ true) × (o ≡ done after)
unguard true r o after h = (refl, h)
unguard false r o after h = cc

own_row :
    (kind : PayerKind) (payer : ℕ)
    → ((kind_code kind == kind_code kind) && (payer == payer) && not false) ≡ true
own_row kind payer =
    let k = (==_iff (kind_code kind) (kind_code kind)).1 refl in
    let p = (==_iff payer payer).1 refl in rw (k, p) refl

-- The settlement that is inserted.
abbrev new_row : Books → PayerKind → ℕ → ℤ → ℕ → Settlement
new_row books kind payer amount day = record {
  id = books.next_id;
  kind = kind;
  payer_id = payer;
  amount = amount;
  day = day;
  voided = false;
}

account :
    (charged settled amount : ℤ)
    → amount ≤ℤ max_ℤ (pos 0) (charged -ℤ settled)
    → pos 0 <ℤ max_ℤ (pos 0) (charged -ℤ settled)
    → max_ℤ (pos 0) (charged -ℤ (settled +ℤ amount)) ≡ max_ℤ (pos 0) (charged -ℤ settled) -ℤ amount
account charged settled amount less more = omega (int_laws, less, more)

-- A payment that is recorded is of whole paise and not above what is owed, and takes exactly its
-- amount off what the payer owes. The totals of the bills and the amounts of the settlements are
-- in whole paise.
pub record_settlement-outstanding_for :
    (on_roster : Bool) (kind : PayerKind) (payer : ℕ) (typed : ℤ) (day : ℕ) (books after : Books)
    → All (λ b. IsCenti b.total) books.bills
    → All (λ s. IsCenti s.amount) books.settlements
    → record_settlement on_roster kind payer typed day books ≡ done after
    → (round2 typed ≤ℤ outstanding_for books kind payer)
      × (outstanding_for after kind payer ≡ outstanding_for books kind payer -ℤ round2 typed)
unfolding record_settlement outstanding_for insert_settlement
record_settlement-outstanding_for on_roster kind payer typed day books after hb hs h =
    let amount = round2 typed in
    let charged = charged_for books kind payer in
    let settled = settled_for books kind payer in
    let hc = filter-IsCenti (charges kind payer) (λ b. b.total) books.bills hb in
    let hd = filter-IsCenti (settles kind payer) (λ s. s.amount) books.settlements hs in
    let out = allocate_settlement (open_bills_for books kind payer) amount in
    let (_, h1) = unguard on_roster _ _ after h in
    let (owes, h2) = unguard (ltb_ℤ (pos 0) (outstanding_for books kind payer)) _ _ after h1 in
    let (within, h3) = unguard (leb_ℤ amount (outstanding_for books kind payer)) _ _ after h2 in
    let (_, h4) = unguard (out.left ==ℤ pos 0) _ _ after h3 in
    let same : insert_settlement kind payer amount day out.lines books ≡ after = cc in
    let less = le_of_leb amount (outstanding_for books kind payer) within in
    let more = lt_of_ltb (pos 0) (outstanding_for books kind payer) owes in
    let now = round2_self (charged -ℤ settled) (sub-IsCenti charged settled hc hd) in
    let then_exact =
      sub-IsCenti charged (settled +ℤ amount) hc
        (add-IsCenti settled amount hd (round2-IsCenti typed)) in
    (
      less,
      rw
          (
            ← same,
            filter-snoc (settles kind payer) (λ s. s.amount) books.settlements
                (new_row books kind payer amount day) (own_row kind payer),
            round2_self (charged -ℤ (settled +ℤ amount)) then_exact,
            now,
          )
          (account charged settled amount (rw (← now) less) (rw (← now) more)),
    )
