-- ===== src/Base/Http.antt =====
-- The result of a request handler: a value, or the status code of the `HTTPException` it raises.
use Prim.Native.Nat.{ℕ}
use mathlib.Core.Path.{◌≡◌, refl}
use mathlib.Core.Logic.{◌⊎◌, inl, inr}
use mathlib.Core.Bool.{Bool, true, false}
use mathlib.Core.Option.{Option, none, some}

pub data Http {ℓ} (A : Type ℓ) : Type ℓ where
  reply : A → Http A
  fail : ℕ → Http A

infixl 5 ◌>>=◌ ◌>>◌
abbrev pub ◌>>=◌ {ℓ κ} : {A : Type ℓ} {B : Type κ} → Http A → (A → Http B) → Http B
reply a >>= f = f a
fail c >>= f = fail c

abbrev pub ◌>>◌ {ℓ} : {B : Type ℓ} → Http (Unit {0}) → Http B → Http B
m >> k = m >>= λ _. k

-- `if not test: raise HTTPException(code)`
abbrev pub guard : Bool → ℕ → Http (Unit {0})
guard true c = reply tt
guard false c = fail c

-- `if value is None: raise HTTPException(code)`
abbrev pub found {ℓ} : {A : Type ℓ} → Option A → ℕ → Http A
found none c = fail c
found (some a) c = reply a

pub fail≢reply {ℓ} : {A : Type ℓ} {c : ℕ} {a : A} → fail c ≡ reply a → ⊥
fail≢reply h = cc

pub reply-injective {ℓ} : {A : Type ℓ} {a b : A} → reply a ≡ reply b → a ≡ b
reply-injective h = cc

pub >>=-eq-reply {ℓ κ} :
    {A : Type ℓ} {B : Type κ} (m : Http A) (f : A → Http B) {b : B}
    → (m >>= f) ≡ reply b
    → (a : A) × (m ≡ reply a) × (f a ≡ reply b)
>>=-eq-reply (reply a) f h = (a, refl, h)
>>=-eq-reply (fail c) f h = cc

pub guard-eq-reply {ℓ} :
    {B : Type ℓ} (b : Bool) (c : ℕ) (k : Http B) {r : B}
    → (guard b c >> k) ≡ reply r
    → (b ≡ true) × (k ≡ reply r)
guard-eq-reply true c k h = (refl, h)
guard-eq-reply false c k h = cc

pub found-eq-reply {ℓ κ} :
    {A : Type ℓ} {B : Type κ} (m : Option A) (c : ℕ) (f : A → Http B) {r : B}
    → (found m c >>= f) ≡ reply r
    → (a : A) × (m ≡ some a) × (f a ≡ reply r)
found-eq-reply none c f h = cc
found-eq-reply (some a) c f h = (a, refl, h)

pub found-some {ℓ} : {A : Type ℓ} (m : Option A) (c : ℕ) {a : A} → found m c ≡ reply a → m ≡ some a
found-some none c h = cc
found-some (some b) c h = cc

pub Http-cases {ℓ} :
    {A : Type ℓ} (m : Http A) → ((c : ℕ) × (m ≡ fail c)) ⊎ ((a : A) × (m ≡ reply a))
Http-cases (fail c) = inl (c, refl)
Http-cases (reply a) = inr (a, refl)
