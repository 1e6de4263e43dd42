-- ===== src/Till/Queue.antt =====
-- Finding a refund among those that are written: `refundForUpdate` of
-- apps/api/src/lib/refunds.ts.
use rch.Prelude.{
  ℕ, ◌≡◌, refl, sym, ap, ◌∙◌, inl, inr, true, false, some, List, [], ◌∷◌, ◌++◌, if◌then◌else◌,
  Bool-cases, arith,
}
use rch.Workflow.Status.{refund_coded}
use rch.Till.{Refund}
use rch.Till.Refunds.{is_refund, find_refund, update_refund}

update_cons :
    (o n : ℕ) (f : Refund → Refund) (x : Refund) (rows : List Refund)
    → update_refund (o, n) f (x ∷ rows)
      ≡ (if is_refund (o, n) x then f x else x) ∷ update_refund (o, n) f rows
update_cons o n f x rows = elim (Bool-cases (is_refund (o, n) x)) [
  | inl e ↦ rw e refl
  | inr e ↦ rw e refl
]

module _ (o n : ℕ) where
  pub find_here :
      (x : Refund) (rows : List Refund)
      → is_refund (o, n) x ≡ true
      → find_refund (o, n) (x ∷ rows) ≡ some x
  find_here x rows e = rw e refl

  pub find_on :
      (x : Refund) (rows : List Refund)
      → is_refund (o, n) x ≡ false
      → find_refund (o, n) (x ∷ rows) ≡ find_refund (o, n) rows
  find_on x rows e = rw e refl

  find_is :
      (rows : List Refund) {r : Refund}
      → find_refund (o, n) rows ≡ some r
      → is_refund (o, n) r ≡ true
  find_is [] e = cc
  find_is (x ∷ rows) {r} e = elim (Bool-cases (is_refund (o, n) x)) [
    | inl here ↦
        let found : some x ≡ some r = sym (find_here x rows here) ∙ e in
        let same : x ≡ r = cc in rw (← same) here
    | inr there ↦ find_is rows (sym (find_on x rows there) ∙ e)
  ]

  -- A row that is written is found as it was written.
  pub find-update :
      (o' n' : ℕ) (f : Refund → Refund) (rows : List Refund) {r : Refund}
      → ((x : Refund) → is_refund (o, n) (f x) ≡ is_refund (o, n) x)
      → find_refund (o, n) rows ≡ some r
      → find_refund (o, n) (update_refund (o', n') f rows)
        ≡ some (if is_refund (o', n') r then f r else r)
  find-update o' n' f [] keeps e = cc
  find-update o' n' f (x ∷ rows) {r} keeps e =
      let y = (if is_refund (o', n') x then f x else x) in
      let named : is_refund (o, n) y ≡ is_refund (o, n) x =
        elim (Bool-cases (is_refund (o', n') x)) [ inl w ↦ rw w (keeps x) | inr w ↦ rw w refl ] in
      let split = ap (find_refund (o, n)) (update_cons o' n' f x rows) in
      elim (Bool-cases (is_refund (o, n) x)) [
        | inl here ↦
            let found : some x ≡ some r = sym (find_here x rows here) ∙ e in
            let same : x ≡ r = cc in
            split
            ∙ find_here y (update_refund (o', n') f rows) (named ∙ here)
            ∙ ap (λ v. some (if is_refund (o', n') v then f v else v)) same
        | inr there ↦
            split
            ∙ find_on y (update_refund (o', n') f rows) (named ∙ there)
            ∙ find-update o' n' f rows keeps (sym (find_on x rows there) ∙ e)
      ]

  pub find-append :
      (rows more : List Refund) (r : Refund)
      → find_refund (o, n) rows ≡ some r
      → find_refund (o, n) (rows ++ more) ≡ some r
  find-append [] more r e = cc
  find-append (x ∷ rows) more r e = elim (Bool-cases (is_refund (o, n) x)) [
    | inl here ↦ find_here x (rows ++ more) here ∙ sym (find_here x rows here) ∙ e
    | inr there ↦
        find_on x (rows ++ more) there ∙ find-append rows more r (sym (find_on x rows there) ∙ e)
  ]

  pub same_row :
      (o' n' : ℕ) (rows : List Refund) {r u : Refund}
      → find_refund (o, n) rows ≡ some r
      → is_refund (o', n') r ≡ true
      → find_refund (o', n') rows ≡ some u
      → r ≡ u
  same_row o' n' rows {r} {u} found mine there =
      let is = find_is rows found in
      let o_is : o ≡ o' = ground arith in
      let n_is : n ≡ n' = ground arith in
      let both : some r ≡ some u =
        sym found
        ∙ ap (λ k. find_refund (k, n) rows) o_is
        ∙ ap (λ k. find_refund (o', k) rows) n_is
        ∙ there in
      cc
