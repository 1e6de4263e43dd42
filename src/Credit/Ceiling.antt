-- ===== src/Credit/Ceiling.antt =====
-- The ceiling of an account: packages/domain/src/credit.ts.
use rch.Prelude.{
  ◌≡◌, ◌↔◌, refl, false, Option, none, some, ℤ, pos, ◌+ℤ◌, ◌-ℤ◌, ◌≤ℤ◌, int_laws, round2_self,
  IsCenti, sub-IsCenti, add-IsCenti, le_of_not_ltb, not_ltb,
}
use rch.Credit.{credit_room, breaches_credit}

-- Whether an amount fits into the room that is left.
abbrev pub FitsRoom : ℤ → Option ℤ → Type 0
FitsRoom total none = Unit {0}
FitsRoom total (some room) = total ≤ℤ room

-- On whole paise a bill of more than nothing breaches the ceiling exactly where it does not fit
-- into the room that is left, and without a ceiling it never does.
pub breaches_credit_iff :
    (outstanding total : ℤ) (limit : Option ℤ)
    → IsCenti outstanding
    → IsCenti total
    → ((l : ℤ) → limit ≡ some l → IsCenti l)
    → pos 1 ≤ℤ total
    → (breaches_credit outstanding total limit ≡ false)
      ↔ FitsRoom total (credit_room outstanding limit)
unfolding breaches_credit credit_room
breaches_credit_iff o t none ho ht hl low = (λ _. tt, λ _. refl)
breaches_credit_iff o t (some l) ho ht hl low =
    rw
      (
        round2_self (o +ℤ t) (add-IsCenti o t ho ht),
        round2_self (l -ℤ o) (sub-IsCenti l o (hl l refl) ho),
      )
      (λ h. omega (int_laws, le_of_not_ltb l (o +ℤ t) h), λ h. not_ltb l (o +ℤ t) (omega int_laws))
