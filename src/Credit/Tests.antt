-- ===== src/Credit/Tests.antt =====
-- The theorems on accounts at concrete figures, in billionths of a rupee.
use mathlib.Core.List.{Perm}
use rch.Prelude.{
  ◌≡◌, ◌↔◌, refl, false, some, List, [], ◌∷◌, arith, ℤ, pos, ◌+ℤ◌, min_ℤ, IsCenti, one, ◌*◌,
}
use rch.Credit.{OpenBill, credit_room, breaches_credit, oldest_first, allocate_settlement}
use rch.Credit.OldestFirst.{Ascends}
use rch.Credit.Allocation.{owing, paid_on, Settles, allocate_settlement_lem}
use rch.Credit.Ceiling.{FitsRoom, breaches_credit_iff}

-- Two bills, the newer one first.
abbrev bills : List OpenBill
bills =
    record { no = 2; at = 20; owed = pos (30 * one) }
    ∷ record { no = 1; at = 10; owed = pos (50 * one) }
    ∷ []

allocate_settlement_lem_example :
    Ascends (oldest_first bills)
    × Perm (oldest_first bills) bills
    × Settles (oldest_first bills) (allocate_settlement bills (pos (60 * one))).lines
    × (paid_on (allocate_settlement bills (pos (60 * one))).lines
        ≡ min_ℤ (pos (60 * one)) (owing bills))
    × (paid_on (allocate_settlement bills (pos (60 * one))).lines
          +ℤ (allocate_settlement bills (pos (60 * one))).left
        ≡ pos (60 * one))
allocate_settlement_lem_example =
    allocate_settlement_lem bills (pos (60 * one)) (omega arith) (refl, refl)
      ((refl, refl), ((refl, refl), tt))

ceiling_exact : (l : ℤ) → some (pos (500 * one)) ≡ some l → IsCenti l
ceiling_exact l h = let e : pos (500 * one) ≡ l = cc in rw (← e) (refl, refl)

breaches_credit_iff_example :
    (breaches_credit (pos (450 * one)) (pos (50 * one)) (some (pos (500 * one))) ≡ false)
    ↔ FitsRoom (pos (50 * one)) (credit_room (pos (450 * one)) (some (pos (500 * one))))
breaches_credit_iff_example =
    breaches_credit_iff (pos (450 * one)) (pos (50 * one)) (some (pos (500 * one))) (refl, refl)
      (refl, refl) ceiling_exact (omega arith)
