-- ===== src/Credit.antt =====
-- Accounts: packages/domain/src/credit.ts, settlement.ts and party.ts.
pub mod Allocation
pub mod Ceiling
pub mod OldestFirst
mod Tests
use rch.Prelude.{
  ℕ, ◌≡◌, Bool, true, false, ◌&&◌, ◌||◌, not, Option, none, some, is_some, List, [], ◌∷◌, ◌++◌,
  ◌==◌, leb, if◌then◌else◌, ℤ, pos, ◌+ℤ◌, ◌-ℤ◌, ltb_ℤ, leb_ℤ, min_ℤ, max_ℤ, round2,
}

unfoldable pub credit_room : ℤ → Option ℤ → Option ℤ
credit_room outstanding none = none
credit_room outstanding (some limit) = some (max_ℤ (pos 0) (round2 (limit -ℤ outstanding)))

unfoldable pub breaches_credit : ℤ → ℤ → Option ℤ → Bool
breaches_credit outstanding total none = false
breaches_credit outstanding total (some limit) = ltb_ℤ limit (round2 (outstanding +ℤ total))

-- A bill with the instant that it was taken at; bill numbers and instants are naturals.
pub record OpenBill : Type 0 where
  pub no : ℕ
  pub at : ℕ
  pub owed : ℤ

pub record Allocated : Type 0 where
  pub no : ℕ
  pub amount : ℤ

pub record SettlementAllocation : Type 0 where
  pub lines : List Allocated
  pub left : ℤ

-- The sort by `at`, which keeps the order of bills taken at one instant.
unfoldable pub insert_by_at : OpenBill → List OpenBill → List OpenBill
insert_by_at b [] = b ∷ []
insert_by_at b (c ∷ cs) = if leb b.at c.at then b ∷ c ∷ cs else c ∷ insert_by_at b cs

unfoldable pub oldest_first : List OpenBill → List OpenBill
oldest_first [] = []
oldest_first (b ∷ bs) = insert_by_at b (oldest_first bs)

-- The loop, with what is left of the payment.
unfoldable pub allocate_from : List OpenBill → ℤ → SettlementAllocation
allocate_from [] left = record { lines = []; left = left }
allocate_from (b ∷ bs) left =
    let owed = round2 b.owed in
    let put = round2 (min_ℤ owed left) in
    let skip = allocate_from bs left in
    let rest = allocate_from bs (round2 (left -ℤ put)) in
    if leb_ℤ left (pos 0)
    then record { lines = []; left = left }
    else if leb_ℤ owed (pos 0)
    then skip
    else record { lines = record { no = b.no; amount = put } ∷ rest.lines; left = rest.left }

unfoldable pub allocate_settlement : List OpenBill → ℤ → SettlementAllocation
allocate_settlement open_bills amount = allocate_from (oldest_first open_bills) (round2 amount)

-- party.ts
pub data Tender : Type 0 where
  cash upi card staff_credit doctor_credit dept_tender online : Tender

pub data PayerKind : Type 0 where
  staff dept doctor : PayerKind

unfoldable pub payer_kind_for_tender : Tender → Option PayerKind
payer_kind_for_tender cash = none
payer_kind_for_tender upi = none
payer_kind_for_tender card = none
payer_kind_for_tender staff_credit = some staff
payer_kind_for_tender doctor_credit = some doctor
payer_kind_for_tender dept_tender = some dept
payer_kind_for_tender online = none

unfoldable pub is_account_tender : Tender → Bool
is_account_tender t = is_some (payer_kind_for_tender t)

pub data BillParty : Type 0 where
  customer : BillParty
  party : PayerKind → BillParty

unfoldable pub party_of : Option PayerKind → BillParty
party_of none = customer
party_of (some kind) = party kind
