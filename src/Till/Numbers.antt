-- ===== src/Till/Numbers.antt =====
-- The numbers that the tables of a till are keyed by, as the primary keys of
-- apps/api/src/db/schema/sales.ts and ledger.ts keep them, and what is found under them.
use rch.Prelude.{
  ℕ, ◌+◌, ◌<◌, ◌≡◌, refl, sym, ap, ◌∙◌, inl, inr, Bool, true, false, ◌&&◌, not, Option, none, some,
  is_some, List, [], ◌∷◌, ◌++◌, ◌==◌, ==_iff, if◌then◌else◌, Bool-cases, any, All, All-imp,
  All-append, arith, pos, ◌==ℤ◌, round3,
}
use rch.Ledger.{bill_ref, real, stored, post_moves}
use rch.Ledger.Cache.{IsCached, post_moves-IsCached}
use rch.Billing.{ShelfMove}
use rch.Receivables.{Bill, SettlementLine, Books, live_settlement}
use rch.Till.{Session, Till}
use rch.Till.Sale.{
  is_open_at, find_session, session_for, held_or_minted, minted, moves_for, write_bill,
}
use rch.Till.Void.{find_bill, is_settled, day_closed}

-- No two sessions have one id.
abbrev pub AreKeyed : List Session → Type 0
AreKeyed [] = Unit
AreKeyed (x ∷ xs) = All (λ y. (x.id == y.id) ≡ false) xs × AreKeyed xs

-- The numbers that are drawn next are new: every bill, every move of a bill, every line of a
-- settlement and every session has a lower one. The balances are what the moves make of them.
pub record IsNumbered (s : Till) : Type 0 where
  pub cached : IsCached s.store.ledger
  pub bills : All (λ b. b.no < s.next_bill) s.books.bills
  pub moves : All (λ m. m.ref_type ≡ bill_ref → m.ref_id < s.next_bill) s.store.ledger.moves
  pub lines : All (λ l. l.bill_no < s.next_bill) s.books.settlement_lines
  pub keyed : AreKeyed s.sessions
  pub ids : All (λ x. x.id < s.next_session) s.sessions

pub find_bill-snoc :
    (bs : List Bill) (b : Bill) → All (λ c. c.no < b.no) bs → find_bill (bs ++ b ∷ []) b.no ≡ some b
find_bill-snoc [] b h = rw (==_iff b.no b.no).1 refl
find_bill-snoc (c ∷ bs) b (low, h) =
    let apart : (c.no == b.no) ≡ false = ground arith in rw (apart, find_bill-snoc bs b h) refl

pub never_settled :
    (books : Books) (num : ℕ)
    → All (λ l. l.bill_no < num) books.settlement_lines
    → is_settled books num ≡ false
unfolding is_settled
never_settled books num h = go books.settlement_lines h
  where
    go :
        (ls : List SettlementLine)
        → All (λ l. l.bill_no < num) ls
        → any
            (λ l. (l.bill_no == num) && is_some (live_settlement books.settlements l.settlement_id))
            ls
          ≡ false
    go [] h' = refl
    go (l ∷ ls) (low, h') =
        let apart : (l.bill_no == num) ≡ false = ground arith in rw (apart, go ls h') refl

found_lem :
    (p : Session → Bool) (P : Session → Type 0) (xs : List Session) {x : Session}
    → find_session p xs ≡ some x
    → All P xs
    → (p x ≡ true) × P x
found_lem p P [] h all = cc
found_lem p P (y ∷ ys) {x} h (py, all) = elim (Bool-cases (p y)) [
  | inl e ↦
      let found : some y ≡ some x = ap (λ b. if b then some y else find_session p ys) (sym e) ∙ h in
      let same : y ≡ x = cc in rw (← same) (e, py)
  | inr e ↦ found_lem p P ys (ap (λ b. if b then some y else find_session p ys) (sym e) ∙ h) all
]

by_id :
    (p : Session → Bool) (xs : List Session) {x : Session}
    → AreKeyed xs
    → find_session p xs ≡ some x
    → find_session (λ y. y.id == x.id) xs ≡ some x
by_id p [] keyed h = h
by_id p (y ∷ ys) {x} (apart, keyed) h = elim (Bool-cases (p y)) [
  | inl e ↦
      let found : some y ≡ some x = ap (λ b. if b then some y else find_session p ys) (sym e) ∙ h in
      let same : y ≡ x = cc in rw (same, (==_iff x.id x.id).1 refl) refl
  | inr e ↦
      let later : find_session p ys ≡ some x =
        ap (λ b. if b then some y else find_session p ys) (sym e) ∙ h in
      rw ((found_lem p (λ z. (y.id == z.id) ≡ false) ys later apart).1, by_id p ys keyed later) refl
]

find_session-snoc :
    (xs : List Session) (x : Session)
    → All (λ y. y.id < x.id) xs
    → find_session (λ y. y.id == x.id) (xs ++ x ∷ []) ≡ some x
find_session-snoc [] x h = rw ((==_iff x.id x.id).1 refl) refl
find_session-snoc (y ∷ ys) x (low, h) =
    let apart : (y.id == x.id) ≡ false = ground arith in rw (apart, find_session-snoc ys x h) refl

all_true : (xs : List Session) → All (λ y. Unit {0}) xs
all_true [] = tt
all_true (x ∷ xs) = (tt, all_true xs)

opened-open :
    (s : Till) (loc by : ℕ) (o : Option Session)
    → find_session (is_open_at loc) s.sessions ≡ o
    → IsNumbered s
    → let opened = held_or_minted s loc by o in
      day_closed opened.1.sessions (some opened.0.id) ≡ false
opened-open s loc by none e h = rw (find_session-snoc s.sessions (minted s loc by) h.ids) refl
opened-open s loc by (some x) e h =
    let live : ((x.loc == loc) && not (is_some x.closed)) ≡ true =
      (found_lem (is_open_at loc) (λ y. Unit) s.sessions e (all_true s.sessions)).0 in
    rw (by_id (is_open_at loc) s.sessions h.keyed e) (ground arith)

-- The day that a sale is stamped onto is open.
pub session_for-open :
    (s : Till) (loc by : ℕ)
    → IsNumbered s
    → let opened = session_for s loc by in day_closed opened.1.sessions (some opened.0.id) ≡ false
unfolding session_for
session_for-open s loc by h = opened-open s loc by (find_session (is_open_at loc) s.sessions) refl h

AreKeyed-snoc :
    (xs : List Session) (x : Session)
    → AreKeyed xs
    → All (λ y. y.id < x.id) xs
    → AreKeyed (xs ++ x ∷ [])
AreKeyed-snoc [] x keyed low = (tt, tt)
AreKeyed-snoc (y ∷ ys) x (apart, keyed) (low, lows) = (
  All-append (λ z. (y.id == z.id) ≡ false) ys (x ∷ []) apart (ground arith, tt),
  AreKeyed-snoc ys x keyed lows,
)

held_or_minted-IsNumbered :
    (s : Till) (loc by : ℕ) (o : Option Session)
    → IsNumbered s
    → IsNumbered (held_or_minted s loc by o).1
held_or_minted-IsNumbered s loc by (some x) h = h
held_or_minted-IsNumbered s loc by none h = record {
  cached = h.cached;
  bills = h.bills;
  moves = h.moves;
  lines = h.lines;
  keyed = AreKeyed-snoc s.sessions (minted s loc by) h.keyed h.ids;
  ids =
      All-append (λ x. x.id < s.next_session + 1) s.sessions (minted s loc by ∷ [])
        (All-imp s.sessions (λ x low. omega (arith, low)) h.ids) (omega arith, tt);
}

pub session_for-IsNumbered :
    (s : Till) (loc by : ℕ) → IsNumbered s → IsNumbered (session_for s loc by).1
unfolding session_for
session_for-IsNumbered s loc by h =
    held_or_minted-IsNumbered s loc by (find_session (is_open_at loc) s.sessions) h

numbered_moves :
    (num by : ℕ) (ms : List ShelfMove)
    → All (λ m. m.ref_type ≡ bill_ref → m.ref_id < num + 1) (stored (real (moves_for num by ms)))
unfolding real
numbered_moves num by [] = tt
numbered_moves num by (m ∷ ms) = elim (Bool-cases (round3 m.qty ==ℤ pos 0)) [
  | inl crumb ↦ rw crumb (numbered_moves num by ms)
  | inr left ↦ rw left (λ _. omega arith, numbered_moves num by ms)
]

pub write_bill-IsNumbered :
    (s : Till) (bill : Bill) (ms : List ShelfMove)
    → IsNumbered s
    → bill.no ≡ s.next_bill
    → IsNumbered (write_bill bill (moves_for s.next_bill bill.operator ms) s)
unfolding write_bill post_moves
write_bill-IsNumbered s bill ms h own = record {
  cached = (post_moves-IsCached (moves_for s.next_bill bill.operator ms) s.store.ledger h.cached).0;
  bills =
      All-append (λ b. b.no < s.next_bill + 1) s.books.bills (bill ∷ [])
        (All-imp s.books.bills (λ b low. omega (arith, low)) h.bills) (omega (arith, own), tt);
  moves =
      All-append (λ m. m.ref_type ≡ bill_ref → m.ref_id < s.next_bill + 1) s.store.ledger.moves _
        (All-imp s.store.ledger.moves (λ m low e. let l = low e in omega (arith, l)) h.moves)
        (numbered_moves s.next_bill bill.operator ms);
  lines = All-imp s.books.settlement_lines (λ l low. omega (arith, low)) h.lines;
  keyed = h.keyed;
  ids = h.ids;
}
