-- ===== src/Base/Results.antt =====
-- A computation that may raise: Python's exceptions as values, for any type of errors.
use mathlib.Core.Path.{◌≡◌, refl, subst}
use mathlib.Core.Logic.{◌⊎◌, inl, inr}
use mathlib.Core.Bool.{Bool, true, false}

pub data Result {ℓ κ} (E : Type ℓ) (A : Type κ) : Type (ℓ ⊔ κ) where
  ok : A → Result E A
  err : E → Result E A

infixl 5 ◌>>=◌ ◌>>◌
abbrev pub ◌>>=◌ {ℓ κ ι} :
    {E : Type ℓ} {A : Type κ} {B : Type ι} → Result E A → (A → Result E B) → Result E B
ok a >>= f = f a
err e >>= f = err e

abbrev pub ◌>>◌ {ℓ κ} : {E : Type ℓ} {B : Type κ} → Result E (Unit {0}) → Result E B → Result E B
m >> k = m >>= λ _. k

-- `if not condition: raise error`
abbrev pub guard {ℓ} : {E : Type ℓ} → Bool → E → Result E (Unit {0})
guard true e = ok tt
guard false e = err e

pub Result-cases {ℓ κ} :
    {E : Type ℓ} {A : Type κ} (m : Result E A) → ((a : A) × (m ≡ ok a)) ⊎ ((e : E) × (m ≡ err e))
Result-cases (ok a) = inl (a, refl)
Result-cases (err e) = inr (e, refl)

-- What returned, of a computation that returned.
pub ok_first {ℓ κ} :
    {E : Type ℓ} {B : Type κ} (m : Result E (Unit {0})) (k : Result E B) (b : B)
    → (m >> k) ≡ ok b
    → m ≡ ok tt
ok_first (ok tt) k b h = refl
ok_first (err e) k b h = cc

pub ok_second {ℓ κ} :
    {E : Type ℓ} {B : Type κ} (m : Result E (Unit {0})) (k : Result E B) (b : B)
    → (m >> k) ≡ ok b
    → k ≡ ok b
ok_second (ok tt) k b h = h
ok_second (err e) k b h = cc

pub ok_bind {ℓ κ ι} :
    {E : Type ℓ} {A : Type κ} {B : Type ι} (m : Result E A) (f : A → Result E B) (b : B)
    → (m >>= f) ≡ ok b
    → (a : A) × (m ≡ ok a) × (f a ≡ ok b)
ok_bind (ok a) f b h = (a, refl, h)
ok_bind (err e) f b h = cc

pub ok_injective {ℓ κ} :
    {E : Type ℓ} {A : Type κ} {a b : A} → (let m : Result E A = ok a in m) ≡ ok b → a ≡ b
ok_injective h = cc

pub ok_guard {ℓ} : {E : Type ℓ} (b : Bool) (e : E) → guard b e ≡ ok tt → b ≡ true
ok_guard true e h = refl
ok_guard false e h = cc

-- What holds of the value of a computation, if it returns one.
pub record Ensures {ℓ κ ι} {E : Type ℓ} {A : Type κ} (P : A → Type ι) (m : Result E A)
    : Type (ℓ ⊔ κ ⊔ ι) where
  pub apply : (a : A) → m ≡ ok a → P a

pub Ensures-any {ℓ κ} : {E : Type ℓ} {A : Type κ} (m : Result E A) → Ensures (λ _. Unit {0}) m
Ensures-any m = record { apply = λ a h. tt }

module _ {ℓ κ ι λ' μ} {E : Type ℓ} {A : Type κ} {B : Type ι} {P : B → Type λ'}
    {Q : A → Type μ} where
  pub Ensures-bind :
      (m : Result E A) (f : A → Result E B)
      → Ensures Q m
      → ((a : A) → Q a → Ensures P (f a))
      → Ensures P (m >>= f)
  Ensures-bind (ok a) f q k = k a (q.apply a refl)
  Ensures-bind (err e) f q k = record { apply = λ a h. cc }

module _ {ℓ κ ι} {E : Type ℓ} {A : Type κ} {P : A → Type ι} where
  pub Ensures-ok : (a : A) → P a → Ensures P (let r : Result E A = ok a in r)
  Ensures-ok a p = record { apply = λ b h. subst P (cc) p }

  pub Ensures-guard :
      (b : Bool) (e : E) (f : Result E A) → (b ≡ true → Ensures P f) → Ensures P (guard b e >> f)
  Ensures-guard true e f k = k refl
  Ensures-guard false e f k = record { apply = λ a h. cc }
