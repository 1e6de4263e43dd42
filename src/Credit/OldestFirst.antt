-- ===== src/Credit/OldestFirst.antt =====
-- The order in which a payment reaches bills: the sort of packages/domain/src/settlement.ts.
use mathlib.Core.List.{Perm}
use mathlib.Core.List.Perm
use rch.Prelude.{◌≤◌, inl, inr, List, [], ◌∷◌, arith, leb, Bool-cases, All, All-imp}
use rch.Credit.{OpenBill, insert_by_at, oldest_first}

-- Each bill was taken no earlier than the bills before it.
abbrev pub Ascends : List OpenBill → Type 0
Ascends [] = Unit
Ascends (b ∷ bs) = All (λ c. b.at ≤ c.at) bs × Ascends bs

insert_by_at_keeps :
    (P : OpenBill → Type 0) (b : OpenBill) (bs : List OpenBill)
    → P b
    → All P bs
    → All P (insert_by_at b bs)
unfolding insert_by_at
insert_by_at_keeps P b [] hb h = (hb, tt)
insert_by_at_keeps P b (c ∷ cs) hb (hc, hs) = elim (Bool-cases (leb b.at c.at)) [
  | inl e ↦ rw e (hb, (hc, hs))
  | inr e ↦ rw e (hc, insert_by_at_keeps P b cs hb hs)
]

insert_by_at-Ascends :
    (b : OpenBill) (bs : List OpenBill) → Ascends bs → Ascends (insert_by_at b bs)
unfolding insert_by_at
insert_by_at-Ascends b [] h = (tt, tt)
insert_by_at-Ascends b (c ∷ cs) (hc, hs) = elim (Bool-cases (leb b.at c.at)) [
  | inl e ↦
      let first : b.at ≤ c.at = ground arith in
      rw e ((first, All-imp cs (λ d h. omega (arith, first, h)) hc), (hc, hs))
  | inr e ↦
      let behind : c.at ≤ b.at = ground arith in
      rw e (insert_by_at_keeps (λ d. c.at ≤ d.at) b cs behind hc, insert_by_at-Ascends b cs hs)
]

insert_by_at-Perm : (b : OpenBill) (bs : List OpenBill) → Perm (insert_by_at b bs) (b ∷ bs)
unfolding insert_by_at
insert_by_at-Perm b [] = Perm.refl (b ∷ [])
insert_by_at-Perm b (c ∷ cs) = elim (Bool-cases (leb b.at c.at)) [
  | inl e ↦ rw e (Perm.refl (b ∷ c ∷ cs))
  | inr e ↦ rw e (Perm.trans (Perm.cons c (insert_by_at-Perm b cs)) (Perm.swap b c cs))
]

pub oldest_first_keeps :
    (P : OpenBill → Type 0) (bs : List OpenBill) → All P bs → All P (oldest_first bs)
unfolding oldest_first
oldest_first_keeps P [] h = tt
oldest_first_keeps P (b ∷ bs) (hb, hs) =
    insert_by_at_keeps P b (oldest_first bs) hb (oldest_first_keeps P bs hs)

pub oldest_first-Ascends : (bs : List OpenBill) → Ascends (oldest_first bs)
unfolding oldest_first
oldest_first-Ascends [] = tt
oldest_first-Ascends (b ∷ bs) = insert_by_at-Ascends b (oldest_first bs) (oldest_first-Ascends bs)

pub oldest_first-Perm : (bs : List OpenBill) → Perm (oldest_first bs) bs
unfolding oldest_first
oldest_first-Perm [] = Perm.refl []
oldest_first-Perm (b ∷ bs) =
    Perm.trans (insert_by_at-Perm b (oldest_first bs)) (Perm.cons b (oldest_first-Perm bs))
