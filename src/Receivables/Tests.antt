-- ===== src/Receivables/Tests.antt =====
-- The theorems on receivables at one consultant's account, in billionths of a rupee.
use rch.Prelude.{
  ◌≡◌, refl, true, false, none, some, [], ◌∷◌, ◌*◌, pos, ◌+ℤ◌, ◌-ℤ◌, ◌≤ℤ◌, round2, max_ℤ, min_ℤ,
  one,
}
use rch.Credit.{
  doctor, doctor_credit, is_account_tender, payer_kind_for_tender, allocate_settlement,
  allocate_from, oldest_first, insert_by_at,
}
use rch.Receivables.{
  Bill, till, Books, settled_for, charged_for, outstanding_for, open_bills_for, settled_on,
  insert_settlement, record_settlement, set_voided, refused, overpaid,
}
use rch.Receivables.Outstanding.{taken_by, set_voided-open_bills_for}
use rch.Receivables.Recording.{record_settlement-outstanding_for}

abbrev lunch : Bill
lunch = record {
  no = 1;
  loc = 5;
  operator = 3;
  lines = record { it = 2; qty = pos (4 * one); rate = pos (20 * one) } ∷ [];
  total = pos (80 * one);
  tax = pos 3_800_000_000;
  at = 10;
  tender = doctor_credit;
  session = some 0;
  payer_kind = some doctor;
  payer_id = 4;
  discount_pct = 0;
  discount = pos 0;
  phone = none;
  source = till;
  qr_order = none;
  voided = false;
}

-- One bill, closed in full by settlement 1.
abbrev paid_up : Books
paid_up = record {
  bills = lunch ∷ [];
  settlements =
      record {
        id = 1;
        kind = doctor;
        payer_id = 4;
        amount = pos (80 * one);
        day = 2;
        voided = false;
      }
      ∷ [];
  settlement_lines = record { settlement_id = 1; bill_no = 1; amount = pos (80 * one) } ∷ [];
  next_id = 2;
}

abbrev owing : Books
owing = record { bills = lunch ∷ []; settlements = []; settlement_lines = []; next_id = 1 }

set_voided-open_bills_for_example :
    (open_bills_for (set_voided 1 paid_up) doctor 4 ≡ open_bills_for paid_up doctor 4)
    × (settled_for (set_voided 1 paid_up) doctor 4 +ℤ taken_by 1 doctor 4 paid_up
        ≡ settled_for paid_up doctor 4)
    × (charged_for (set_voided 1 paid_up) doctor 4 ≡ charged_for paid_up doctor 4)
set_voided-open_bills_for_example = set_voided-open_bills_for 1 paid_up doctor 4

-- After the void the consultant owes the bill again, and no bill is open.
owed_again : outstanding_for (set_voided 1 paid_up) doctor 4 ≡ pos (80 * one)
unfolding outstanding_for set_voided is_account_tender payer_kind_for_tender max_ℤ round2 ◌-ℤ◌ ◌+ℤ◌
owed_again = refl

none_open : open_bills_for (set_voided 1 paid_up) doctor 4 ≡ []
unfolding open_bills_for settled_on set_voided is_account_tender payer_kind_for_tender round2 ◌-ℤ◌
    ◌+ℤ◌
none_open = refl

-- So a payment of what is owed is turned away.
payment_refused :
    record_settlement true doctor 4 (pos (80 * one)) 3 (set_voided 1 paid_up) ≡ refused overpaid
unfolding outstanding_for record_settlement open_bills_for settled_on set_voided is_account_tender
    payer_kind_for_tender allocate_settlement allocate_from oldest_first insert_by_at max_ℤ min_ℤ
    round2 ◌-ℤ◌ ◌+ℤ◌
payment_refused = refl

abbrev after_part : Books
after_part =
    insert_settlement doctor 4 (pos (30 * one)) 3 (record { no = 1; amount = pos (30 * one) } ∷ [])
      owing

record_settlement-outstanding_for_example :
    (round2 (pos (30 * one)) ≤ℤ outstanding_for owing doctor 4)
    × (outstanding_for after_part doctor 4
        ≡ outstanding_for owing doctor 4 -ℤ round2 (pos (30 * one)))
unfolding outstanding_for record_settlement open_bills_for settled_on is_account_tender
    payer_kind_for_tender allocate_settlement allocate_from oldest_first insert_by_at max_ℤ min_ℤ
    round2 ◌-ℤ◌ ◌+ℤ◌
record_settlement-outstanding_for_example =
    record_settlement-outstanding_for true doctor 4 (pos (30 * one)) 3 owing after_part
      ((refl, refl), tt) tt refl
