-- ===== src/Till/Agree.antt =====
-- The menu and the sale say the same: `menuOf` and `assertSellable` of apps/api/src/lib/sale.ts.
use rch.Prelude.{
  ℕ, ◌≡◌, ◌↔◌, refl, sym, ◌∙◌, inl, inr, Bool, true, false, ◌&&◌, ◌||◌, List, [], ◌∷◌, ◌==◌, ==_iff,
  Bool-cases, any, All, is_some, arith, ℤ, pos, ltb_ℤ, ok, guard, >>=-eq-ok, ◌>>◌,
}
use rch.Billing.{Cart, avail_of, price_of, list_of}
use rch.Billing.Shelf.{is_available}
use rch.Till.{TillRefusal, no_item, not_listed, not_available, only_left, no_price}
use rch.Till.Menu.{
  Sellable, SellableLine, cover_of, covers, line_for, lines_for, menu_of, listed, assert_item,
  assert_items, assert_sellable,
}

abbrev fits : ℕ → ℤ → SellableLine → Bool
fits it n l = (l.it == it) && l.available && covers l.cover n

-- Whether the menu shows the item as available with so many to be had.
abbrev pub offered : Sellable → ℕ × ℤ → Bool
offered s (it, n) = any (fits it n) (menu_of s)

abbrev sound : Sellable → ℕ → ℤ → Bool
sound s it n = is_some (s.master.items it) && (line_for s it).available && covers (cover_of s it) n

absorb : (good more : Bool) → (good || (more && good)) ≡ good
absorb true more = refl
absorb false true = refl
absorb false false = refl

absorb_none : (more : Bool) → (more && false) ≡ false
absorb_none true = refl
absorb_none false = refl

offered_lem :
    (s : Sellable) (it : ℕ) (n : ℤ) (its : List ℕ)
    → any (fits it n) (lines_for s its) ≡ (listed its it && sound s it n)
offered_lem s it n [] = refl
offered_lem s it n (k ∷ its) = elim (Bool-cases (k == it)) [
  | inl e ↦
      let same : k ≡ it = (==_iff k it).0 e in
      elim (Bool-cases (is_some (s.master.items it))) [
        | inl f ↦
            rw (same, f, (==_iff it it).1 refl, offered_lem s it n its, f)
              (absorb ((line_for s it).available && covers (cover_of s it) n) (listed its it))
        | inr f ↦
            rw (same, f, (==_iff it it).1 refl, offered_lem s it n its, f)
              (absorb_none (listed its it))
      ]
  | inr e ↦ elim (Bool-cases (is_some (s.master.items k))) [
    | inl f ↦ rw (f, e, offered_lem s it n its) refl
    | inr f ↦ rw (f, e, offered_lem s it n its) refl
  ]
]

five_guards :
    (a b c d e : Bool) (r1 r2 r3 r4 r5 : TillRefusal)
    → ((do guard a r1; guard b r2; guard c r3; guard d r4; guard e r5) ≡ ok tt)
      ↔ ((b && (a && (c && e) && d)) ≡ true)
five_guards a b c d e r1 r2 r3 r4 r5 = ground arith

assert_item_iff :
    (s : Sellable) (it : ℕ) (n : ℤ)
    → (assert_item s (it, n) ≡ ok tt) ↔ ((listed s.menu it && sound s it n) ≡ true)
unfolding assert_item cover_of
assert_item_iff s it n =
    five_guards (is_some (s.master.items it)) (listed s.menu it)
      (is_available (avail_of s.master s.stock s.rsv s.ovr s.loc it)) (covers (cover_of s it) n)
      (ltb_ℤ (pos 0) (price_of s.master s.prices s.loc it).p) (no_item it) (not_listed it)
      (not_available it) (only_left it) (no_price it)

assert_items_iff :
    (s : Sellable) (cart : Cart)
    → (assert_items s cart ≡ ok tt) ↔ All (λ line. offered s line ≡ true) cart
unfolding assert_items menu_of
assert_items_iff s [] = (λ h. tt, λ h. refl)
assert_items_iff s ((it, n) ∷ cart) =
    let one_line = assert_item_iff s it n in
    let more = assert_items_iff s cart in
    let shown = offered_lem s it n s.menu in
    (
      λ h.
          let (_, first, rest) = >>=-eq-ok (assert_item s (it, n)) (λ _. assert_items s cart) h in
          (shown ∙ one_line.0 first, more.0 rest),
      λ (first, rest). rw (one_line.1 (sym shown ∙ first), more.1 rest) refl,
    )

-- A sale takes a cart exactly where the outlet is on a price list and its menu shows every item of
-- the cart as available, with as many to be had as the cart asks for.
pub assert_sellable_iff :
    (s : Sellable) (cart : Cart)
    → (assert_sellable s cart ≡ ok tt) ↔ (
        (is_some (list_of (s.master.locations s.loc)) ≡ true)
        × All (λ line. offered s line ≡ true) cart)
unfolding assert_sellable
assert_sellable_iff s cart =
    let items = assert_items_iff s cart in
    elim (Bool-cases (is_some (list_of (s.master.locations s.loc)))) [
      | inl e ↦ rw e (λ h. (refl, items.0 h), λ (_, h). items.1 h)
      | inr e ↦ rw e (λ h. cc, λ (h, _). cc)
    ]
