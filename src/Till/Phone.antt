-- ===== src/Till/Phone.antt =====
-- A phone number as its ten digits: `normalizePhone` of packages/domain/src/party.ts. A string is
-- the list of its UTF-16 code units.
use rch.Prelude.{
  ℕ, Bool, false, ◌&&◌, ◌||◌, not, Option, none, some, List, [], ◌∷◌, ◌==◌, leb, if◌then◌else◌,
  filter, every, length,
}

-- `\s`
abbrev is_space : ℕ → Bool
is_space c =
    (leb 9 c && leb c 13)
    || (c == 32)
    || (c == 160)
    || (c == 5760)
    || (leb 8192 c && leb c 8202)
    || (c == 8232)
    || (c == 8233)
    || (c == 8239)
    || (c == 8287)
    || (c == 12288)
    || (c == 65279)

-- `[\s\-.()]`
abbrev pub is_ignored : ℕ → Bool
is_ignored c = is_space c || (c == 45) || (c == 46) || (c == 40) || (c == 41)

abbrev pub is_digit : ℕ → Bool
is_digit c = leb 48 c && leb c 57

-- `[1-9]\d{9}`, to the end.
abbrev pub is_ten_digits : List ℕ → Bool
is_ten_digits [] = false
is_ten_digits (c ∷ cs) = (leb 49 c && leb c 57) && (length cs == 9) && every is_digit cs

abbrev pub drop_prefix : List ℕ → List ℕ → Option (List ℕ)
drop_prefix [] cs = some cs
drop_prefix (p ∷ ps) [] = none
drop_prefix (p ∷ ps) (c ∷ cs) = let rest = drop_prefix ps cs in if p == c then rest else none

abbrev ten_digits_of : Option (List ℕ) → Option (List ℕ)
ten_digits_of none = none
ten_digits_of (some cs) = if is_ten_digits cs then some cs else none

abbrev or_else : Option (List ℕ) → Option (List ℕ) → Option (List ℕ)
or_else none o = o
or_else (some cs) o = some cs

abbrev after_plus_91 : List ℕ → Option (List ℕ)
after_plus_91 cs = ten_digits_of (drop_prefix (43 ∷ 57 ∷ 49 ∷ []) cs)

abbrev after_91 : List ℕ → Option (List ℕ)
after_91 cs = ten_digits_of (drop_prefix (57 ∷ 49 ∷ []) cs)

abbrev after_0 : List ℕ → Option (List ℕ)
after_0 cs = ten_digits_of (drop_prefix (48 ∷ []) cs)

-- `^(?:\+?91|0)?([1-9]\d{9})$`, its alternatives in the order that they are tried.
abbrev pub captured : List ℕ → Option (List ℕ)
captured cs =
    or_else (after_plus_91 cs)
      (or_else (after_91 cs) (or_else (after_0 cs) (ten_digits_of (some cs))))

unfoldable pub normalize_phone : List ℕ → Option (List ℕ)
normalize_phone raw = captured (filter (λ c. not (is_ignored c)) raw)
