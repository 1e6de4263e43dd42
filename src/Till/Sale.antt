-- ===== src/Till/Sale.antt =====
-- One sale in one transaction: `postSale` of apps/api/src/lib/sale.ts, with `sessionFor` of
-- lib/register.ts and `termsFor` of lib/terms.ts.
use rch.Prelude.{
  ℕ, ◌+◌, Bool, false, ◌&&◌, not, Option, none, some, is_some, List, [], ◌∷◌, ◌++◌, ◌==◌,
  if◌then◌else◌, every, ℤ, pos, ◌-ℤ◌, leb_ℤ, round2, ok, guard, require, ◌>>=◌, ◌>>◌,
}
use rch.Ledger.{bill_ref, Move, sale, post_moves}
use rch.Billing.{Cart, ShelfMove, BillPlan, plan_bill, discount_pct_for, credit_limit_for}
use rch.Credit.{Tender, PayerKind, BillParty, payer_kind_for_tender, party_of, breaches_credit}
use rch.Receivables.{Bill, BillSource, Books, kind_code, outstanding_for}
use rch.Tickets.{Store}
use rch.Tickets.Rows.{with_ledger}
use rch.Tickets.Transfer.{free_at}
use rch.Till.{
  Session, Terms, OwnTerms, Till, TillResult, lock_location, assert_open, fallback, bad_phone,
  choose_payer, wrong_payer, not_on_roster, over_limit, not_covered, lost_under_lock,
}
use rch.Till.Phone.{normalize_phone}
use rch.Till.Menu.{sellable_at, assert_sellable, cart_of, add_to}

-- The payer that the till sends, without the name.
pub record Payer : Type 0 where
  pub kind : PayerKind
  pub id : ℕ

-- `phone` is the string without the blanks around it, empty where none is given; `at` is the
-- instant of the sale.
pub record SaleInput : Type 0 where
  pub loc : ℕ
  pub operator : ℕ
  pub lines : List (ℕ × ℤ)
  pub tender : Tender
  pub payer : Option Payer
  pub phone : List ℕ
  pub source : BillSource
  pub qr_order : Option ℕ
  pub at : ℕ

abbrev pub is_open_at : ℕ → Session → Bool
is_open_at loc x = (x.loc == loc) && not (is_some x.closed)

abbrev pub find_session : (Session → Bool) → List Session → Option Session
find_session p [] = none
find_session p (x ∷ xs) = let rest = find_session p xs in if p x then some x else rest

abbrev pub minted : Till → ℕ → ℕ → Session
minted s loc by = record { id = s.next_session; loc = loc; opened_by = by; closed = none }

abbrev pub held_or_minted : Till → ℕ → ℕ → Option Session → Session × Till
held_or_minted s loc by (some held) = (held, s)
held_or_minted s loc by none = (
  minted s loc by,
  record s { sessions = s.sessions ++ minted s loc by ∷ []; next_session = s.next_session + 1 },
)

-- The open session of the outlet, opened where there is none. In one transaction after another the
-- first pass finds it or inserts it.
unfoldable pub session_for : Till → ℕ → ℕ → Session × Till
session_for s loc by = held_or_minted s loc by (find_session (is_open_at loc) s.sessions)

abbrev class_terms_of : Till → BillParty → Terms
class_terms_of s cls = elim (s.class_terms cls) [ none ↦ fallback cls | some t ↦ t ]

abbrev pub own_pct : Option OwnTerms → Option ℕ
own_pct none = none
own_pct (some t) = t.pct

abbrev pub own_limit : Option OwnTerms → Option ℤ
own_limit none = none
own_limit (some t) = t.limit

unfoldable pub terms_for : Till → BillParty → Option Payer → Terms
terms_for s cls none = class_terms_of s cls
terms_for s cls (some p) =
    let base = class_terms_of s cls in
    record {
      pct = discount_pct_for base.pct (own_pct (s.payer_terms p.kind p.id));
      limit = credit_limit_for base.limit (own_limit (s.payer_terms p.kind p.id));
    }

-- The phone as it is stored; none for a blank box.
abbrev pub customer_phone : List ℕ → TillResult (Option (List ℕ))
customer_phone [] = ok none
customer_phone (c ∷ cs) = do digits ← require (normalize_phone (c ∷ cs)) bad_phone; ok (some digits)

-- The tender names the kind of payer that it needs.
abbrev pub fits_tender : Option PayerKind → Option Payer → TillResult (Unit {0})
fits_tender none p = ok tt
fits_tender (some kind) none = guard false choose_payer
fits_tender (some kind) (some p) = guard (kind_code p.kind == kind_code kind) wrong_payer

abbrev pub on_roster : Till → Option Payer → TillResult (Unit {0})
on_roster s none = ok tt
on_roster s (some p) = guard (s.active p.kind p.id) not_on_roster

unfoldable pub assert_payer : Till → Tender → Option Payer → TillResult (Unit {0})
assert_payer s tender payer = do fits_tender (payer_kind_for_tender tender) payer; on_roster s payer

abbrev pub kind_of : Option Payer → Option PayerKind
kind_of none = none
kind_of (some p) = some p.kind

abbrev pub id_of : Option Payer → ℕ
id_of none = 0
id_of (some p) = p.id

-- The ceiling is on what is still unsettled.
unfoldable pub assert_credit : Books → Option Payer → ℤ → Option ℤ → TillResult (Unit {0})
assert_credit books none total limit = ok tt
assert_credit books (some p) total limit =
    guard (not (breaches_credit (outstanding_for books p.kind p.id) total limit)) over_limit

-- What the sale takes off each shelf.
unfoldable pub took_from : Cart → List ShelfMove → Cart
took_from took [] = took
took_from took (m ∷ moves) = took_from (add_to m.it (pos 0 -ℤ m.qty) took) moves

-- `free >= sold`, under the locks.
unfoldable pub is_covered : Store → ℕ → Cart → Bool
is_covered s loc took = every (λ (it, sold). leb_ℤ sold (free_at s loc it)) took

-- `free >= 0`, with the moves posted.
unfoldable pub is_still_covered : Store → ℕ → Cart → Bool
is_still_covered s loc took = every (λ (it, sold). leb_ℤ (pos 0) (free_at s loc it)) took

abbrev pub sale_move : ℕ → ℕ → ShelfMove → Move
sale_move num by m = record {
  loc = m.loc;
  it = m.it;
  qty = m.qty;
  kind = sale;
  ref_type = bill_ref;
  ref_id = num;
  by = some by;
  reverses = none;
}

abbrev pub moves_for : ℕ → ℕ → List ShelfMove → List Move
moves_for num by [] = []
moves_for num by (m ∷ ms) = sale_move num by m ∷ moves_for num by ms

abbrev pub bill_for : SaleInput → Option (List ℕ) → ℕ → ℕ → ℕ → BillPlan → Bill
bill_for i phone session num pct plan = record {
  no = num;
  loc = i.loc;
  operator = i.operator;
  lines = plan.lines;
  total = round2 plan.tot;
  tax = round2 plan.tax;
  at = i.at;
  tender = i.tender;
  session = some session;
  payer_kind = kind_of i.payer;
  payer_id = id_of i.payer;
  discount_pct = pct;
  discount = round2 plan.disc;
  phone = phone;
  source = i.source;
  qr_order = i.qr_order;
  voided = false;
}

abbrev pub with_bill : Bill → Books → Books
with_bill b books = record books { bills = books.bills ++ b ∷ [] }

-- The bill under the next number of the series, and its moves.
unfoldable pub write_bill : Bill → List Move → Till → Till
write_bill b moves s = record s {
  store = with_ledger (post_moves moves s.store.ledger) s.store;
  books = with_bill b s.books;
  next_bill = s.next_bill + 1;
}

unfoldable pub post_sale : SaleInput → Till → TillResult (Bill × Till)
post_sale i s = do
  outlet ← lock_location s.store.master i.loc
  assert_open outlet
  let (session, s1) = session_for s i.loc i.operator
  let cart = cart_of i.lines
  phone ← customer_phone i.phone
  assert_payer s1 i.tender i.payer
  assert_sellable (sellable_at s1 i.loc) cart
  let terms = terms_for s1 (party_of (kind_of i.payer)) i.payer
  let plan = plan_bill s1.store.master s1.prices i.loc terms.pct cart
  assert_credit s1.books i.payer plan.tot terms.limit
  let took = took_from [] plan.moves
  guard (is_covered s1.store i.loc took) not_covered
  let bill = bill_for i phone session.id s1.next_bill terms.pct plan
  let s2 = write_bill bill (moves_for s1.next_bill i.operator plan.moves) s1
  guard (is_still_covered s2.store i.loc took) lost_under_lock
  ok (bill, s2)
