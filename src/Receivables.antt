-- ===== src/Receivables.antt =====
-- What payers owe and pay: apps/api/src/lib/credit.ts, and `record` and `voidSettlement` of
-- apps/api/src/modules/receivables/service.ts.
pub mod Outstanding
pub mod Recording
mod Tests
use rch.Prelude.{
  ℕ, ◌+◌, Bool, true, false, ◌&&◌, not, Option, none, some, List, [], ◌∷◌, ◌++◌, ◌==◌,
  if◌then◌else◌, filter, length, ℤ, pos, ◌+ℤ◌, ◌-ℤ◌, ltb_ℤ, leb_ℤ, ◌==ℤ◌, max_ℤ, round2, sum_of,
}
use rch.Billing.{BillLine}
use rch.Credit.{
  Tender, PayerKind, staff, dept, doctor, OpenBill, Allocated, SettlementAllocation,
  is_account_tender, allocate_settlement,
}

pub data BillSource : Type 0 where
  till qr : BillSource

-- A bill with its lines. A bill posted to an account has its payer. Names, which are only printed,
-- are left out, as are the instant and the operator of a void.
pub record Bill : Type 0 where
  pub no : ℕ
  pub loc : ℕ
  pub operator : ℕ
  pub lines : List BillLine
  pub total : ℤ
  pub tax : ℤ
  pub at : ℕ
  pub tender : Tender
  pub session : Option ℕ
  pub payer_kind : Option PayerKind
  pub payer_id : ℕ
  pub discount_pct : ℕ
  pub discount : ℤ
  pub phone : Option (List ℕ)
  pub source : BillSource
  pub qr_order : Option ℕ
  pub voided : Bool

-- `day` is the date that the settlement was taken on.
pub record Settlement : Type 0 where
  pub id : ℕ
  pub kind : PayerKind
  pub payer_id : ℕ
  pub amount : ℤ
  pub day : ℕ
  pub voided : Bool

pub record SettlementLine : Type 0 where
  pub settlement_id : ℕ
  pub bill_no : ℕ
  pub amount : ℤ

pub record Books : Type 0 where
  pub bills : List Bill
  pub settlements : List Settlement
  pub settlement_lines : List SettlementLine
  pub next_id : ℕ

abbrev pub kind_code : PayerKind → ℕ
kind_code staff = 0
kind_code dept = 1
kind_code doctor = 2

abbrev pub is_kind : Option PayerKind → PayerKind → Bool
is_kind none kind = false
is_kind (some k) kind = kind_code k == kind_code kind

-- The `where` of both reads.
abbrev pub charges : PayerKind → ℕ → Bill → Bool
charges kind payer b =
    is_account_tender b.tender && is_kind b.payer_kind kind && (b.payer_id == payer) && not b.voided

abbrev pub settles : PayerKind → ℕ → Settlement → Bool
settles kind payer s = (kind_code s.kind == kind_code kind) && (s.payer_id == payer) && not s.voided

abbrev pub charged_for : Books → PayerKind → ℕ → ℤ
charged_for books kind payer = sum_of (λ b. b.total) (filter (charges kind payer) books.bills)

abbrev pub settled_for : Books → PayerKind → ℕ → ℤ
settled_for books kind payer =
    sum_of (λ s. s.amount) (filter (settles kind payer) books.settlements)

unfoldable pub outstanding_for : Books → PayerKind → ℕ → ℤ
outstanding_for books kind payer =
    max_ℤ (pos 0) (round2 (charged_for books kind payer -ℤ settled_for books kind payer))

-- The second left join: the settlement of a line, where it is not voided.
abbrev pub live_settlement : List Settlement → ℕ → Option Settlement
live_settlement [] id = none
live_settlement (s ∷ ss) id =
    let rest = live_settlement ss id in if (s.id == id) && not s.voided then some s else rest

-- The rows that both left joins make of a bill's lines.
abbrev pub joined : Books → ℕ → List SettlementLine → List (SettlementLine × Option Settlement)
joined books bill [] = []
joined books bill (l ∷ ls) =
    let rest = joined books bill ls in
    if l.bill_no == bill
    then (l, live_settlement books.settlements l.settlement_id) ∷ rest
    else rest

-- `sum(settlement_lines.amount)` over those rows.
unfoldable pub settled_on : Books → ℕ → ℤ
settled_on books bill = sum_of (λ row. row.0.amount) (joined books bill books.settlement_lines)

abbrev open_bill : Books → Bill → OpenBill
open_bill books b = record {
  no = b.no;
  at = b.at;
  owed = round2 (b.total -ℤ round2 (settled_on books b.no));
}

abbrev open_rows : Books → List Bill → List OpenBill
open_rows books [] = []
open_rows books (b ∷ bs) = open_bill books b ∷ open_rows books bs

-- The bills stand in the order of the query, by instant and number.
unfoldable pub open_bills_for : Books → PayerKind → ℕ → List OpenBill
open_bills_for books kind payer =
    filter (λ b. ltb_ℤ (pos 0) b.owed) (open_rows books (filter (charges kind payer) books.bills))

pub data BooksRefusal : Type 0 where
  nobody nothing_owed overpaid no_settlement no_reason already_voided another_day : BooksRefusal

pub data BooksResult : Type 0 where
  done : Books → BooksResult
  refused : BooksRefusal → BooksResult

abbrev lines_of : ℕ → List Allocated → List SettlementLine
lines_of id [] = []
lines_of id (l ∷ ls) =
    record { settlement_id = id; bill_no = l.no; amount = l.amount } ∷ lines_of id ls

-- The settlement and its lines, under the next number.
unfoldable pub insert_settlement : PayerKind → ℕ → ℤ → ℕ → List Allocated → Books → Books
insert_settlement kind payer amount day lines books = record {
  bills = books.bills;
  settlements =
      books.settlements
      ++ record {
        id = books.next_id;
        kind = kind;
        payer_id = payer;
        amount = amount;
        day = day;
        voided = false;
      }
        ∷ [];
  settlement_lines = books.settlement_lines ++ lines_of books.next_id lines;
  next_id = books.next_id + 1;
}

-- `on_roster` says whether the payer is there; `day` is today.
unfoldable pub record_settlement : Bool → PayerKind → ℕ → ℤ → ℕ → Books → BooksResult
record_settlement on_roster kind payer typed day books =
    let outstanding = outstanding_for books kind payer in
    let amount = round2 typed in
    let out = allocate_settlement (open_bills_for books kind payer) amount in
    if not on_roster
    then refused nobody
    else if not (ltb_ℤ (pos 0) outstanding)
    then refused nothing_owed
    else if not (leb_ℤ amount outstanding)
    then refused overpaid
    else if not (out.left ==ℤ pos 0)
    then refused overpaid
    else done (insert_settlement kind payer amount day out.lines books)

abbrev pub void_one : ℕ → Settlement → Settlement
void_one id s =
    if s.id == id
    then record {
      id = s.id;
      kind = s.kind;
      payer_id = s.payer_id;
      amount = s.amount;
      day = s.day;
      voided = true;
    }
    else s

abbrev pub void_rows : ℕ → List Settlement → List Settlement
void_rows id [] = []
void_rows id (s ∷ ss) = void_one id s ∷ void_rows id ss

-- The head is marked; its lines stay.
unfoldable pub set_voided : ℕ → Books → Books
set_voided id books = record {
  bills = books.bills;
  settlements = void_rows id books.settlements;
  settlement_lines = books.settlement_lines;
  next_id = books.next_id;
}

abbrev find_settlement : List Settlement → ℕ → Option Settlement
find_settlement [] id = none
find_settlement (s ∷ ss) id =
    let rest = find_settlement ss id in if s.id == id then some s else rest

abbrev void_found : ℕ → List ℕ → ℕ → Books → Option Settlement → BooksResult
void_found id reason today books none = refused no_settlement
void_found id reason today books (some s) =
    if length reason == 0
    then refused no_reason
    else if s.voided
    then refused already_voided
    else if not (s.day == today)
    then refused another_day
    else done (set_voided id books)

-- `reason` is the reason without the blanks around it.
unfoldable pub void_settlement : ℕ → List ℕ → ℕ → Books → BooksResult
void_settlement id reason today books =
    void_found id reason today books (find_settlement books.settlements id)
