-- ===== src/Tickets/Lock.antt =====
-- Wrong codes: the count that shuts a ticket, `handover` of apps/api/src/modules/tickets/service.ts.
use rch.Prelude.{
  ℕ, suc, ◌+◌, ◌≤◌, ◌≡◌, ◌≢◌, refl, ◌∙◌, ltb→lt, inl, inr, true, false, Option, some, List, [], ◌∷◌,
  ◌==◌, ==_iff, ltb, arith, Bool-cases, length, All,
}
use rch.Workflow.Status.{TktStatus, tkt_coded}
use rch.Tickets.{Ticket, Store, put, counted_once, refused, committed, locked}
use rch.Tickets.Code.{otp_matches_iff, issued_iff}
use rch.Tickets.Service.{Claims, otp_matches, otp_attempts_max, handover}

-- Handovers tried one after another, each on the store that the one before it left behind.
abbrev pub tries : Claims → ℕ → List (List ℕ) → Store → Store
tries claims id [] s = s
tries claims id (c ∷ cs) s = tries claims id cs (committed s (handover claims id c s))

-- The ticket stands issued at the desk, with so many wrong codes counted or more.
record IsCounted (claims : Claims) (id : ℕ) (real : List ℕ) (n : ℕ) (s : Store) : Type 0 where
  ticket : Ticket
  found : s.tickets id ≡ some ticket
  own : claims.loc ≡ ticket.from
  issued : ticket.st ≡ TktStatus.issued
  code : ticket.otp ≡ real
  tried : n ≤ ticket.otp_attempts

not_ltb_ℕ : (a b : ℕ) → b ≤ a → ltb a b ≡ false
not_ltb_ℕ a b h = ground arith

own_desk : (a b : ℕ) → a ≡ b → (a == b) ≡ true
own_desk a b h = (==_iff a b).1 h

put_same : {A : Type 0} (id : ℕ) (a : A) (rows : ℕ → Option A) → put id a rows id ≡ some a
put_same id a rows = rw (own_desk id id refl) refl

mismatch : (typed real : List ℕ) → typed ≢ real → otp_matches typed real ≡ false
mismatch typed real h = elim (Bool-cases (otp_matches typed real)) [
  | inl e ↦ absurd (h ((otp_matches_iff typed real).0 e))
  | inr e ↦ e
]

-- A wrong code is counted, up to the fifth, and moves nothing.
wrong_code :
    (claims : Claims) (id : ℕ) (typed real : List ℕ) (n m : ℕ) (s : Store)
    → typed ≢ real
    → m ≤ suc n
    → m ≤ otp_attempts_max
    → IsCounted claims id real n s
    → IsCounted claims id real m (committed s (handover claims id typed s))
      × ((committed s (handover claims id typed s)).ledger ≡ s.ledger)
      × ((committed s (handover claims id typed s)).rsv ≡ s.rsv)
unfolding committed handover
wrong_code claims id typed real n m s h next five k =
    let t = k.ticket in
    let other : typed ≢ t.otp = λ e. h (e ∙ k.code) in
    let tried = k.tried in
    rw (k.found, own_desk claims.loc t.from k.own, (issued_iff t.st).1 k.issued)
      (elim (Bool-cases (ltb t.otp_attempts otp_attempts_max)) [
        | inl few ↦
            rw (few, mismatch typed t.otp other)
              (
                record {
                  ticket = counted_once t;
                  found = put_same id (counted_once t) s.tickets;
                  own = k.own;
                  issued = k.issued;
                  code = k.code;
                  tried = omega (arith, next, tried);
                },
                refl,
                refl,
              )
        | inr shut ↦
            let most : otp_attempts_max ≤ t.otp_attempts = ground arith in
            rw shut (
              record {
                ticket = t;
                found = k.found;
                own = k.own;
                issued = k.issued;
                code = k.code;
                tried = omega (arith, most, five);
              },
              refl,
              refl,
            )
      ])

tries_lem :
    (claims : Claims) (id : ℕ) (real : List ℕ) (codes : List (List ℕ)) (n m : ℕ) (s : Store)
    → All (λ c. c ≢ real) codes
    → n ≤ otp_attempts_max
    → m ≤ n + length codes
    → m ≤ otp_attempts_max
    → IsCounted claims id real n s
    → IsCounted claims id real m (tries claims id codes s)
      × ((tries claims id codes s).ledger ≡ s.ledger)
      × ((tries claims id codes s).rsv ≡ s.rsv)
tries_lem claims id real [] n m s h low reach five k = (
  record {
    ticket = k.ticket;
    found = k.found;
    own = k.own;
    issued = k.issued;
    code = k.code;
    tried = omega (arith, reach, k.tried);
  },
  refl,
  refl,
)
tries_lem claims id real (c ∷ cs) n m s (hc, hs) low reach five k =
    elim (Bool-cases (ltb n otp_attempts_max)) [
      | inl few ↦
          let less = ltb→lt n otp_attempts_max few in
          let (k', ledger, rsv) = wrong_code claims id c real n (suc n) s hc (omega arith) less k in
          let (k'', ledger', rsv') =
            tries_lem claims id real cs (suc n) m _ hs less (omega (arith, reach)) five k' in
          (k'', ledger' ∙ ledger, rsv' ∙ rsv)
      | inr all ↦
          let most : n ≡ otp_attempts_max = ground arith in
          let (k', ledger, rsv) = wrong_code claims id c real n n s hc (omega arith) low k in
          let (k'', ledger', rsv') =
            tries_lem claims id real cs n m _ hs low (omega (arith, most, five)) five k' in
          (k'', ledger' ∙ ledger, rsv' ∙ rsv)
    ]

-- However many handovers with wrong codes a desk tries on its own issued ticket, no stock moves
-- and no hold is released. Once the codes counted before and the codes tried come to five, every
-- further handover on the ticket at that desk is refused as locked, with the right code as well.
pub handover-locked :
    (claims : Claims) (id : ℕ) (t : Ticket) (codes : List (List ℕ)) (typed : List ℕ) (s : Store)
    → s.tickets id ≡ some t
    → claims.loc ≡ t.from
    → t.st ≡ TktStatus.issued
    → t.otp_attempts ≤ otp_attempts_max
    → All (λ c. c ≢ t.otp) codes
    → ((tries claims id codes s).ledger ≡ s.ledger)
      × ((tries claims id codes s).rsv ≡ s.rsv)
      × (otp_attempts_max ≤ t.otp_attempts + length codes
          → handover claims id typed (tries claims id codes s) ≡ refused locked)
unfolding handover
handover-locked claims id t codes typed s found own issued low wrong =
    let start : IsCounted claims id t.otp t.otp_attempts s = record {
      ticket = t;
      found = found;
      own = own;
      issued = issued;
      code = refl;
      tried = omega arith;
    } in
    let (k, ledger, rsv) =
      tries_lem claims id t.otp codes t.otp_attempts 0 s wrong low (omega arith) (omega arith)
        start in
    (
      ledger,
      rsv,
      λ five.
          let (k, _, _) =
            tries_lem claims id t.otp codes t.otp_attempts otp_attempts_max s wrong low five
              (omega arith) start in
          let shut : ltb k.ticket.otp_attempts otp_attempts_max ≡ false =
            not_ltb_ℕ k.ticket.otp_attempts otp_attempts_max k.tried in
          rw
            (
              k.found,
              own_desk claims.loc k.ticket.from k.own,
              (issued_iff k.ticket.st).1 k.issued,
              shut,
            )
            refl,
    )
