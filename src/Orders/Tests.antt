-- ===== src/Orders/Tests.antt =====
-- The theorems on orders at a concrete requisition: ten of item 1 are approved, and an order of
-- vendor 3 takes four and three of them.
use rch.Prelude.{
  ℕ, zero, suc, sym, ap, ◌∙◌, get_elem?, ◌≡◌, refl, true, false, none, some, [], ◌∷◌, ◌*◌, ◌==◌,
  if◌then◌else◌, pos, ◌+ℤ◌, ◌≤ℤ◌, one, Bool-cases, inl, inr, value_or, round3, ◌-ℤ◌, arith, ok,
  IsMilli,
}
use rch.Workflow.Status.{PrqStatus, PoStatus}
use rch.Ledger.{Ledger}
use rch.Purchasing.Claims.{fold_claims, fold_all, fold_into, sort_claims, insert_sorted}
use rch.Orders.{on_line, add_ordered, PrqLine, Requisition, PurchaseOrder, Buying, line_at}
use rch.Orders.Drafting.{CreatePoBody, create, check_picks, given_rates}
use rch.Orders.Placing.{cancel}
use rch.Orders.Booking.{ReceivePoBody, receive}
use rch.Orders.Within.{IsWithin}
use rch.Orders.Undecided.{IsUndecided, is_sent}
use rch.Orders.Bought.{IsBought}
use rch.Orders.Steps.{none_yet, then_one, created, Writes-IsBought}
use rch.Orders.Undone.{cancel-create}

abbrev milk : PrqLine
milk = record {
  it = 1;
  qty = pos (10 * one);
  appr = pos (10 * one);
  ordered = pos 0;
  short = some (pos 0);
}

abbrev asked : Requisition
asked = record { status = PrqStatus.approved; lines = milk ∷ [] }

abbrev empty : Ledger
empty = record { moves = []; balances = λ l i. none }

-- Order 2 is out for seven.
abbrev sent_out : PurchaseOrder
sent_out = record {
  vendor = 3;
  status = PoStatus.ordered;
  at = 1;
  eta = 3;
  needs_approval = false;
  lines =
      record {
        it = 1;
        qty = pos (7 * one);
        rate = pos (40 * one);
        recv = pos 0;
        rejected = pos 0;
        src = [];
      }
      ∷ [];
}

abbrev desk : Buying
desk = record {
  master = record { items = λ it. none; locations = λ l. none };
  cost = λ it. some (pos (40 * one));
  requisitions = λ k. if k == 1 then some asked else none;
  orders = λ k. if k == 2 then some sent_out else none;
  vendors = λ k. some (record { active = true; lead_days = 2 });
  contracts = [];
  grns = [];
  ledger = empty;
  history = [];
  next_po = 5;
  next_prq = 2;
}

abbrev body : CreatePoBody
body = record {
  vendor = 3;
  picks =
      record { prq = 1; line = 0; qty = pos (4 * one); rate = none }
      ∷ record { prq = 1; line = 0; qty = pos (3 * one); rate = some (pos (42 * one)) }
      ∷ [];
}

abbrev delivery : ReceivePoBody
delivery = record {
  dc = 68 ∷ 67 ∷ [];
  lines =
      record {
        recv = pos (7 * one);
        rejected = pos one;
        batch_blank = false;
        mfg = some 0;
        exp = some 9;
      }
      ∷ [];
}

abbrev drafted : Buying
drafted = value_or desk (create 8 body 1 desk)

drafted_is : create 8 body 1 desk ≡ ok drafted
unfolding create check_picks fold_claims fold_all fold_into sort_claims insert_sorted round3 ◌-ℤ◌
    ◌+ℤ◌ given_rates
drafted_is = refl

-- Seven of the ten are ordered.
seven_ordered : line_at drafted.requisitions 1 0 ≡ some (record milk { ordered = pos (7 * one) })
unfolding create check_picks fold_claims fold_all fold_into sort_claims insert_sorted round3 ◌-ℤ◌
    ◌+ℤ◌ given_rates add_ordered
seven_ordered = refl

abbrev booked_in : Buying
booked_in = value_or desk (receive 8 2 delivery 1 desk)

milk_only :
    (l : ℕ) (x : PrqLine)
    → get_elem? (milk ∷ []) l ≡ some x
    → IsMilli x.appr × IsMilli x.ordered × (x.ordered ≤ℤ x.appr)
milk_only zero x e =
    let same : milk ≡ x = cc in rw (← same) ((refl, refl), (refl, refl), omega arith)
milk_only (suc l) x e = cc

desk-IsWithin : IsWithin desk.requisitions
desk-IsWithin p l x e = elim (Bool-cases (p == 1)) [
  | inl this ↦ milk_only l x (ap (λ b. on_line l (if b then some asked else none)) (sym this) ∙ e)
  | inr other ↦
      let gone : none ≡ some x =
        ap (λ b. on_line l (if b then some asked else none)) (sym other) ∙ e in
      cc
]

desk-IsUndecided : IsUndecided desk.requisitions
desk-IsUndecided p r e sent = elim (Bool-cases (p == 1)) [
  | inl this ↦
      let row : some asked ≡ some r = ap (λ b. if b then some asked else none) (sym this) ∙ e in
      let same : asked ≡ r = cc in
      let not_sent : false ≡ true = ap (λ v. is_sent v.status) same ∙ sent in cc
  | inr other ↦
      let gone : none ≡ some r = ap (λ b. if b then some asked else none) (sym other) ∙ e in cc
]

desk-IsBought : IsBought desk
desk-IsBought = record {
  within = desk-IsWithin;
  undecided = desk-IsUndecided;
  claims = λ id o e. elim (Bool-cases (id == 2)) [
    | inl this ↦
        let row : some sent_out ≡ some o =
          ap (λ b. if b then some sent_out else none) (sym this) ∙ e in
        let same : sent_out ≡ o = cc in rw (← same) (((refl, refl), tt), tt)
    | inr other ↦
        let gone : none ≡ some o = ap (λ b. if b then some sent_out else none) (sym other) ∙ e in cc
  ];
}

Writes-IsBought_example : IsBought drafted
Writes-IsBought_example =
    Writes-IsBought (then_one desk desk drafted (none_yet desk) (created 8 body 1 drafted_is))
      desk-IsBought

cancel-create_example :
    (u : Buying) × (cancel 8 5 (120 ∷ []) drafted ≡ ok u)
    × ((p l : ℕ) → line_at u.requisitions p l ≡ line_at desk.requisitions p l)
cancel-create_example = cancel-create 8 8 body 1 desk (120 ∷ []) desk-IsWithin drafted_is (λ e. cc)
