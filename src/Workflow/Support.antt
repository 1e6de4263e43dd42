-- ===== src/Workflow/Support.antt =====
-- Support tickets: packages/domain/src/support.ts.
use rch.Prelude.{
  ◌≡◌, refl, false, ◌⊎◌, Bool, true, ◌||◌, not, Option, none, some, arith, ◌==◌, if◌then◌else◌,
}
use rch.Workflow.Table.{Reach, can_transition}
use rch.Workflow.Status.{
  TicketStatus, opened, with_support, waiting_on_you, resolved, closed, ticket_coded, ticket_code,
}
use rch.Workflow.Tables.{support_transitions}
use rch.Workflow.Walks.{Reach_induction}

-- `a === b` on ticket statuses.
abbrev pub is : TicketStatus → TicketStatus → Bool
is a b = ticket_code a == ticket_code b

unfoldable pub may_user_set : TicketStatus → Bool
may_user_set st = is st resolved || is st closed

unfoldable pub status_after_reply : TicketStatus → TicketStatus
status_after_reply st = if is st waiting_on_you || is st resolved then with_support else st

unfoldable pub may_rate : TicketStatus → Bool
may_rate st = is st resolved || is st closed

unfoldable pub may_reply : TicketStatus → Bool
may_reply st = not (is st closed)

unfoldable pub may_desk_set : TicketStatus → Bool
may_desk_set st = not (is st opened)

-- `none` is a reply sent with no status.
unfoldable pub desk_status_after_reply : TicketStatus → Option TicketStatus → TicketStatus
desk_status_after_reply st (some sent_with) = sent_with
desk_status_after_reply st none = if is st opened then with_support else st

-- A user's reply to a ticket that takes one leaves its status or makes a listed move, and the
-- ticket neither waits on the user nor stands resolved afterwards.
pub status_after_reply_legal :
    (st : TicketStatus)
    → may_reply st ≡ true
    → ((status_after_reply st ≡ st)
        ⊎ (can_transition support_transitions st (status_after_reply st) ≡ true))
      × (is (status_after_reply st) waiting_on_you ≡ false)
      × (is (status_after_reply st) resolved ≡ false)
unfolding may_reply status_after_reply can_transition support_transitions
status_after_reply_legal st h = ground arith

-- A plain reply from the desk leaves the status or makes a listed move, and afterwards the ticket
-- is not open.
pub desk_status_after_reply_legal :
    (st : TicketStatus)
    → ((desk_status_after_reply st none ≡ st)
        ⊎ (can_transition support_transitions st (desk_status_after_reply st none) ≡ true))
      × (may_desk_set (desk_status_after_reply st none) ≡ true)
unfolding desk_status_after_reply can_transition support_transitions may_desk_set
desk_status_after_reply_legal st = ground arith

-- Every listed move is the desk's to make, and the moves that the reporter may also make are the
-- ones to a status at which a rating is taken.
pub may_set_covers :
    (a b : TicketStatus)
    → can_transition support_transitions a b ≡ true
    → (may_desk_set b ≡ true) × (may_user_set b ≡ may_rate b)
unfolding can_transition support_transitions may_desk_set may_user_set may_rate
may_set_covers a b h = ground arith

is_closed_kept :
    (b c : TicketStatus) → b ≡ closed → can_transition support_transitions b c ≡ true → c ≡ closed
unfolding can_transition support_transitions
is_closed_kept b c e h = ground arith

-- A closed ticket stays closed, and takes no reply.
pub closed_is_final :
    {b : TicketStatus} → Reach support_transitions closed b → (b ≡ closed) × (may_reply b ≡ false)
unfolding may_reply
closed_is_final r =
    let e = Reach_induction support_transitions (λ b. b ≡ closed) is_closed_kept r refl in (e, rw e)
