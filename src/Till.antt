-- ===== src/Till.antt =====
-- The till: one bill at one outlet, apps/api/src/lib/sale.ts, and its void,
-- apps/api/src/modules/pos/service.ts. The state is the store of the tickets, whose shelves a sale
-- empties, with what a till reads and writes besides.
pub mod Phone
pub mod Menu
pub mod Sale
pub mod Void
pub mod Cart
pub mod Shelf
pub mod Agree
pub mod Posting
pub mod Late
pub mod Numbers
pub mod Collecting
pub mod Undo
pub mod Restored
pub mod Limit
pub mod Refunds
pub mod Queue
pub mod Due
pub mod Sends
mod Tests
use rch.Prelude.{
  ℕ, ◌+◌, Bool, true, false, Option, none, some, List, ◌==◌, if◌then◌else◌, ℤ, pos, ◌*◌, one,
  Result, guard, require, ◌>>=◌, ◌>>◌,
}
use rch.Workflow.Status.{QrOrderStatus, RefundStatus}
use rch.Catalog.{Location, Master, OvrMap, Prices}
use rch.Credit.{Tender, PayerKind, staff, dept, doctor, BillParty, customer, party}
use rch.Receivables.{BillSource, Books}
use rch.Tickets.{Store}

-- An outlet's register between two Z reports; `closed` is the number of the Z that closed it.
pub record Session : Type 0 where
  pub id : ℕ
  pub loc : ℕ
  pub opened_by : ℕ
  pub closed : Option ℕ

pub record Terms : Type 0 where
  pub pct : ℕ
  pub limit : Option ℤ

-- What a person's own row sets; the rest is the category's.
pub record OwnTerms : Type 0 where
  pub pct : Option ℕ
  pub limit : Option ℤ

pub record QrOrder : Type 0 where
  pub status : QrOrderStatus
  pub rzp_payment : Option ℕ

pub data RefundReason : Type 0 where
  unfulfillable void_reason duplicate : RefundReason

-- `number` is the n of the id, the order's own followed by `-R<n>`.
pub record Refund : Type 0 where
  pub qr_order : ℕ
  pub number : ℕ
  pub bill_no : Option ℕ
  pub payment : ℕ
  pub amount : ℤ
  pub reason : RefundReason
  pub status : RefundStatus
  pub attempts : ℕ
  pub next_attempt_at : ℕ
  pub last_error : Option (List ℕ)
  pub rzp_refund : Option ℕ
  pub processed_at : Option ℕ

-- `menu` is location_items, `active` the roster of those who may still run up a balance.
-- `next_bill` is the counter of the series, `next_session` stands for the random id of the next
-- session.
pub record Till : Type 0 where
  pub store : Store
  pub menu : ℕ → List ℕ
  pub ovr : OvrMap
  pub prices : Prices
  pub class_terms : BillParty → Option Terms
  pub payer_terms : PayerKind → ℕ → Option OwnTerms
  pub active : PayerKind → ℕ → Bool
  pub sessions : List Session
  pub books : Books
  pub qr_orders : ℕ → Option QrOrder
  pub refunds : List Refund
  pub next_bill : ℕ
  pub next_session : ℕ

pub data TillRefusal : Type 0 where
  no_location outlet_closed bad_phone choose_payer wrong_payer not_on_roster no_list : TillRefusal
  no_item not_listed not_available only_left no_price : ℕ → TillRefusal
  over_limit not_covered lost_under_lock : TillRefusal
  no_bill own_bill no_reason already_voided another_day settled session_closed order_moved :
      TillRefusal

abbrev pub TillResult : Type 0 → Type 0
TillResult A = Result TillRefusal A

-- `lockLocation` of apps/api/src/lib/locations.ts.
abbrev pub lock_location : Master → ℕ → TillResult Location
lock_location m key = require (m.locations key) no_location

abbrev pub assert_open : Location → TillResult (Unit {0})
assert_open row = guard row.active outlet_closed

-- `FALLBACK` of apps/api/src/lib/terms.ts, with STAFF_CREDIT_LIMIT.
abbrev pub fallback : BillParty → Terms
fallback customer = record { pct = 0; limit = none }
fallback (party staff) = record { pct = 0; limit = some (pos (3000 * one)) }
fallback (party doctor) = record { pct = 0; limit = none }
fallback (party dept) = record { pct = 0; limit = none }
