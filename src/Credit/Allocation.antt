-- ===== src/Credit/Allocation.antt =====
-- Turning a payment into the bills that it closes: packages/domain/src/settlement.ts.
use mathlib.Core.List.{Perm}
use rch.Prelude.{
  ◌≡◌, refl, inl, inr, true, List, [], ◌∷◌, arith, leb, if◌then◌else◌, Bool-cases, All, ℤ, pos,
  ◌+ℤ◌, ◌-ℤ◌, ◌≤ℤ◌, ◌<ℤ◌, leb_ℤ, min_ℤ, max_ℤ, int_laws, round2_self, IsCenti, sub-IsCenti,
  min-IsCenti, sum_of, le_of_leb, lt_of_not_leb, eq_of_parts, EqParts, ap,
}
use rch.Credit.OldestFirst.{Ascends, oldest_first_keeps, oldest_first-Ascends, oldest_first-Perm}
use rch.Credit.{
  OpenBill, Allocated, SettlementAllocation, insert_by_at, oldest_first, allocate_from,
  allocate_settlement,
}

-- What is still owed on a list of bills.
abbrev pub owing : List OpenBill → ℤ
owing = sum_of (λ b. max_ℤ (pos 0) b.owed)

abbrev pub paid_on : List Allocated → ℤ
paid_on = sum_of (λ l. l.amount)

-- The lines lie on the bills in their order: a bill with nothing owed is passed over, a bill is
-- closed in full, and only the last line may be a part payment.
pub data Settles : List OpenBill → List Allocated → Type 0 where
  stop : (bs : List OpenBill) → Settles bs []
  skip :
      (b : OpenBill) {bs : List OpenBill} {ls : List Allocated}
      → b.owed ≤ℤ pos 0
      → Settles bs ls
      → Settles (b ∷ bs) ls
  full :
      (b : OpenBill) {bs : List OpenBill} {ls : List Allocated}
      → pos 0 <ℤ b.owed
      → Settles bs ls
      → Settles (b ∷ bs) (record { no = b.no; amount = b.owed } ∷ ls)
  part :
      (b : OpenBill) (bs : List OpenBill) (q : ℤ)
      → pos 0 <ℤ q
      → q <ℤ b.owed
      → Settles (b ∷ bs) (record { no = b.no; amount = q } ∷ [])

-- What an allocation of what is left comes to.
record IsLaid (bs : List OpenBill) (left : ℤ) (out : SettlementAllocation) : Type 0 where
  settles : Settles bs out.lines
  paid : EqParts (paid_on out.lines) (min_ℤ left (owing bs))
  rest : EqParts (paid_on out.lines +ℤ out.left) left

owing_nonneg : (bs : List OpenBill) → pos 0 ≤ℤ owing bs
owing_nonneg [] = omega arith
owing_nonneg (b ∷ bs) = omega (int_laws, owing_nonneg bs)

allocate_nothing :
    (bs : List OpenBill) (left : ℤ)
    → leb_ℤ left (pos 0) ≡ true
    → allocate_from bs left ≡ record { lines = []; left = left }
unfolding allocate_from
allocate_nothing [] left h = refl
allocate_nothing (b ∷ bs) left h = rw h refl

-- A line on a bill, before the lines on the bills behind it.
paying : OpenBill → ℤ → SettlementAllocation → SettlementAllocation
paying b put rest = record {
  lines = record { no = b.no; amount = put } ∷ rest.lines;
  left = rest.left;
}

allocate_cons :
    (b : OpenBill) (bs : List OpenBill) (left : ℤ)
    → IsCenti left
    → IsCenti b.owed
    → allocate_from (b ∷ bs) left ≡ (
        if leb_ℤ left (pos 0)
        then record { lines = []; left = left }
        else if leb_ℤ b.owed (pos 0)
        then allocate_from bs left
        else paying b (min_ℤ b.owed left) (allocate_from bs (left -ℤ min_ℤ b.owed left)))
unfolding allocate_from paying
allocate_cons b bs left exact hb =
    let put_exact : IsCenti (min_ℤ b.owed left) = min-IsCenti b.owed left hb exact in
    rw
      (
        round2_self b.owed hb,
        round2_self (min_ℤ b.owed left) put_exact,
        round2_self (left -ℤ min_ℤ b.owed left) (sub-IsCenti left _ exact put_exact),
      )
      refl

paying-IsLaid :
    (b : OpenBill) (bs : List OpenBill) (left : ℤ) (rest : SettlementAllocation)
    → pos 0 <ℤ left
    → pos 0 <ℤ b.owed
    → (b.owed ≤ℤ left → IsLaid bs (left -ℤ b.owed) rest)
    → (left <ℤ b.owed → rest ≡ record { lines = []; left = pos 0 })
    → IsLaid (b ∷ bs) left (paying b (min_ℤ b.owed left) rest)
unfolding paying min_ℤ
paying-IsLaid b bs left rest hl hb enough short = elim (Bool-cases (leb_ℤ b.owed left)) [
  | inl e ↦
      let ih = enough (le_of_leb b.owed left e) in
      rw e (record {
        settles = full b hb ih.settles;
        paid = omega (int_laws, ih.paid, owing_nonneg bs);
        rest = omega (int_laws, ih.rest);
      })
  | inr e ↦
      let less = lt_of_not_leb b.owed left e in
      rw (e, short less)
        (record {
          settles = part b bs left hl less;
          paid = omega (int_laws, owing_nonneg bs);
          rest = omega int_laws;
        })
]

allocate_from-IsLaid :
    (bs : List OpenBill) (left : ℤ)
    → pos 0 ≤ℤ left
    → IsCenti left
    → All (λ b. IsCenti b.owed) bs
    → IsLaid bs left (allocate_from bs left)
unfolding allocate_from
allocate_from-IsLaid [] left low exact h = record {
  settles = stop [];
  paid = omega int_laws;
  rest = omega int_laws;
}
allocate_from-IsLaid (b ∷ bs) left low exact (hb, hs) =
    let put : ℤ = min_ℤ b.owed left in
    rw (allocate_cons b bs left exact hb) (elim (Bool-cases (leb_ℤ left (pos 0))) [
      | inl e ↦
          let none_left = le_of_leb left (pos 0) e in
          rw e (record {
            settles = stop (b ∷ bs);
            paid = omega (int_laws, owing_nonneg bs);
            rest = omega int_laws;
          })
      | inr e ↦ elim (Bool-cases (leb_ℤ b.owed (pos 0))) [
        | inl none_owed ↦
            let ih = allocate_from-IsLaid bs left low exact hs in
            let nothing = le_of_leb b.owed (pos 0) none_owed in
            rw (e, none_owed)
              (record {
                settles = skip b nothing ih.settles;
                paid = omega (int_laws, ih.paid);
                rest = ih.rest;
              })
        | inr some_owed ↦
            let ih = λ (l : pos 0 ≤ℤ left -ℤ put).
              allocate_from-IsLaid bs (left -ℤ put) l
                (sub-IsCenti left put exact (min-IsCenti b.owed left hb exact)) hs in
            rw (e, some_owed)
              (paying-IsLaid b bs left _ (lt_of_not_leb left (pos 0) e)
                (lt_of_not_leb b.owed (pos 0) some_owed)
                (λ le.
                  let same : put ≡ b.owed = omega int_laws in
                  rw (← ap (λ q. left -ℤ q) same) (ih (omega int_laws)))
                (λ lt.
                  let same : left -ℤ put ≡ pos 0 = omega int_laws in
                  rw same (allocate_nothing bs (pos 0) refl)))
      ]
    ])

insert_by_at-owing :
    (b : OpenBill) (bs : List OpenBill) → owing (insert_by_at b bs) ≡ owing (b ∷ bs)
unfolding insert_by_at
insert_by_at-owing b [] = refl
insert_by_at-owing b (c ∷ cs) = elim (Bool-cases (leb b.at c.at)) [
  | inl e ↦ rw e refl
  | inr e ↦ rw (e, insert_by_at-owing b cs) (omega int_laws)
]

oldest_first-owing : (bs : List OpenBill) → owing (oldest_first bs) ≡ owing bs
unfolding oldest_first
oldest_first-owing [] = refl
oldest_first-owing (b ∷ bs) =
    rw (insert_by_at-owing b (oldest_first bs), oldest_first-owing bs) refl

-- A payment of whole paise, laid over bills in whole paise, is laid in the order of the instants
-- that the bills were taken at, which reorders the bills and neither drops nor adds one: each bill
-- with something owed is closed in full, and only the last that the payment reaches may be paid in
-- part. The lines come to the smaller of the payment and what is owed, and they and what is left
-- over come to the payment.
pub allocate_settlement_lem :
    (open_bills : List OpenBill) (amount : ℤ)
    → pos 0 ≤ℤ amount
    → IsCenti amount
    → All (λ b. IsCenti b.owed) open_bills
    → Ascends (oldest_first open_bills)
      × Perm (oldest_first open_bills) open_bills
      × Settles (oldest_first open_bills) (allocate_settlement open_bills amount).lines
      × (paid_on (allocate_settlement open_bills amount).lines ≡ min_ℤ amount (owing open_bills))
      × (paid_on (allocate_settlement open_bills amount).lines
            +ℤ (allocate_settlement open_bills amount).left
          ≡ amount)
unfolding allocate_settlement
allocate_settlement_lem bs amount low exact h =
    let laid =
      allocate_from-IsLaid (oldest_first bs) amount low exact
        (oldest_first_keeps (λ b. IsCenti b.owed) bs h) in
    rw (round2_self amount exact) (
      oldest_first-Ascends bs,
      oldest_first-Perm bs,
      laid.settles,
      rw (← oldest_first-owing bs) (eq_of_parts _ _ laid.paid),
      eq_of_parts _ _ laid.rest,
    )
