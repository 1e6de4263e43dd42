-- ===== src/Workflow/Requests.antt =====
-- Every way in which a stock request changes its status: the moves of REQUEST_TRANSITIONS, `redirect`
-- of apps/api/src/modules/requests/service.ts, and the cancellation of its ticket in
-- apps/api/src/modules/tickets/service.ts, which puts it back to what was approved.
use rch.Prelude.{ℕ, suc, ◌+◌, ◌*◌, ◌≤◌, ◌<◌, ◌≡◌, Bool, true, ◌&&◌, ◌||◌, ◌==◌, arith}
use rch.Workflow.Status.{ReqStatus, req_coded, req_code}
use rch.Workflow.Table.{can_transition}
use rch.Workflow.Tables.{request_transitions}

abbrev pub is_approved : ReqStatus → Bool
is_approved s =
    (req_code s == req_code ReqStatus.manager_approved)
    || (req_code s == req_code ReqStatus.partially_approved)

-- `redirect`: a request that is not decided gets its ticket from a peer outlet.
unfoldable pub redirects : ReqStatus → ReqStatus → Bool
redirects a b =
    (req_code a == req_code ReqStatus.request_sent)
    && (req_code b == req_code ReqStatus.ticket_issued)

-- `cancel` of a ticket: a request at `Ticket issued` gets the status of its approval.
unfoldable pub puts_back : ReqStatus → ReqStatus → Bool
puts_back a b = (req_code a == req_code ReqStatus.ticket_issued) && is_approved b

-- The changes of one request, from one status to another: how many, and how many of them are a
-- ticket that was cancelled.
pub data RequestRun (a : ReqStatus) : ℕ → ℕ → ReqStatus → Type 0 where
  raised : RequestRun a 0 0 a
  by_table :
      {n k : ℕ} {b c : ReqStatus}
      → RequestRun a n k b
      → can_transition request_transitions b c ≡ true
      → RequestRun a (suc n) k c
  redirected :
      {n k : ℕ} {b c : ReqStatus}
      → RequestRun a n k b
      → redirects b c ≡ true
      → RequestRun a (suc n) k c
  ticket_cancelled :
      {n k : ℕ} {b c : ReqStatus}
      → RequestRun a n k b
      → puts_back b c ≡ true
      → RequestRun a (suc n) (suc k) c

abbrev pub request_rank : ReqStatus → ℕ
request_rank ReqStatus.draft = 0
request_rank ReqStatus.request_sent = 1
request_rank ReqStatus.manager_approved = 2
request_rank ReqStatus.partially_approved = 2
request_rank ReqStatus.ticket_issued = 3
request_rank ReqStatus.collected = 4
request_rank ReqStatus.received = 4
request_rank _ = 5

rank_up :
    (b c : ReqStatus)
    → can_transition request_transitions b c ≡ true
    → request_rank b < request_rank c
unfolding can_transition request_transitions
rank_up b c h = ground arith

rank_redirect : (b c : ReqStatus) → redirects b c ≡ true → request_rank b < request_rank c
unfolding redirects
rank_redirect b c h = ground arith

rank_back : (b c : ReqStatus) → puts_back b c ≡ true → request_rank b ≤ suc (request_rank c)
unfolding puts_back
rank_back b c h = ground arith

pub rank_top : (b : ReqStatus) → request_rank b ≤ 5
rank_top b = ground arith

pub RequestRun-rank :
    {a b : ReqStatus} {n k : ℕ} → RequestRun a n k b → request_rank a + n ≤ request_rank b + 2 * k
RequestRun-rank raised = omega arith
RequestRun-rank (by_table {b = b} {c = c} r h) = omega (arith, RequestRun-rank r, rank_up b c h)
RequestRun-rank (redirected {b = b} {c = c} r h) =
    omega (arith, RequestRun-rank r, rank_redirect b c h)
RequestRun-rank (ticket_cancelled {b = b} {c = c} r h) =
    omega (arith, RequestRun-rank r, rank_back b c h)
