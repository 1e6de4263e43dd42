-- ===== src/Prelude/Results.antt =====
-- A transaction that a rule may refuse: what it throws rolls everything back, so a refusal carries
-- no state: `assertRule` of apps/api/src/lib/rules.ts.
use mathlib.Core.Path.{◌≡◌, refl}
use mathlib.Core.Logic.{◌≢◌}
use mathlib.Core.Bool.{Bool, true, false}
use mathlib.Core.Option.{Option, none, some}

pub data Result {ℓ} (E : Type 0) (A : Type ℓ) : Type ℓ where
  ok : A → Result E A
  refuse : E → Result E A

infixl 5 ◌>>=◌ ◌>>◌
abbrev pub ◌>>=◌ {ℓ κ} :
    {E : Type 0} {A : Type ℓ} {B : Type κ} → Result E A → (A → Result E B) → Result E B
refuse word >>= rest = refuse word
ok done >>= rest = rest done

-- `assertRule` of a condition.
abbrev pub guard : {E : Type 0} → Bool → E → Result E (Unit {0})
guard false word = refuse word
guard true word = ok tt

-- `assertRule` of a row that a query looked for.
abbrev pub require {ℓ} : {E : Type 0} {A : Type ℓ} → Option A → E → Result E A
require none word = refuse word
require (some row) word = ok row

abbrev pub ◌>>◌ {ℓ} : {E : Type 0} {B : Type ℓ} → Result E (Unit {0}) → Result E B → Result E B
first >> rest = first >>= λ _. rest

abbrev pub is_ok {ℓ} : {E : Type 0} {A : Type ℓ} → Result E A → Bool
is_ok (ok a) = true
is_ok (refuse e) = false

abbrev pub value_or {ℓ} : {E : Type 0} {A : Type ℓ} → A → Result E A → A
value_or d (ok a) = a
value_or d (refuse e) = d

-- A step that was done, taken apart.
pub >>=-eq-ok {ℓ κ} :
    {E : Type 0} {A : Type ℓ} {B : Type κ} (first : Result E A) (rest : A → Result E B) {b : B}
    → first >>= rest ≡ ok b
    → (a : A) × (first ≡ ok a) × (rest a ≡ ok b)
>>=-eq-ok (refuse word) rest both = cc
>>=-eq-ok (ok done) rest both = (done, refl, both)

pub guard-eq-ok {κ} :
    {E : Type 0} {B : Type κ} (t : Bool) (e : E) (k : Result E B) {b : B}
    → (guard t e >> k) ≡ ok b
    → (t ≡ true) × (k ≡ ok b)
guard-eq-ok true e k h = (refl, h)
guard-eq-ok false e k h = cc

pub require-eq-ok {ℓ} :
    {E : Type 0} {A : Type ℓ} (o : Option A) (e : E) {a : A} → require o e ≡ ok a → o ≡ some a
require-eq-ok (some a) e h = cc
require-eq-ok none e h = cc

pub ok_inj {ℓ} : {E : Type 0} {A : Type ℓ} {a b : A} → ◌≡◌ {A = Result E A} (ok a) (ok b) → a ≡ b
ok_inj h = cc

-- A step that is refused with some word is refused so at its first part or at its second.
pub >>=-refusal {ℓ κ} :
    {E : Type 0} {A : Type ℓ} {B : Type κ} (e : E) (m : Result E A) (f : A → Result E B)
    → m ≢ refuse e
    → ((a : A) → m ≡ ok a → f a ≢ refuse e)
    → (m >>= f) ≢ refuse e
>>=-refusal e (ok a) f h k = k a refl
>>=-refusal e (refuse r) f h k = λ same. let r_is : r ≡ e = cc in h (rw r_is refl)

pub guard-refusal {κ} :
    {E : Type 0} {B : Type κ} (e : E) (t : Bool) (r : E) (k : Result E B)
    → r ≢ e
    → k ≢ refuse e
    → (guard t r >> k) ≢ refuse e
guard-refusal e true r k h n = n
guard-refusal e false r k h n = λ same. h cc

pub guard_other : {E : Type 0} (e : E) (t : Bool) (r : E) → r ≢ e → guard t r ≢ refuse e
guard_other e true r h = λ same. cc
guard_other e false r h = λ same. h cc

pub require_other {ℓ} :
    {E : Type 0} {A : Type ℓ} (e : E) (o : Option A) (r : E) → r ≢ e → require o r ≢ refuse e
require_other e (some a) r h = λ same. cc
require_other e none r h = λ same. h cc
