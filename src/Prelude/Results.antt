-- ===== src/Prelude/Results.antt =====
-- `anyhow::Result`, as the whole of hashiverse-rust uses it. An error is told by its kind in place
-- of its message; `panic` is a Rust panic (an index out of range, a division by zero).
use mathlib.Core.Path.{◌≡◌, refl}
use mathlib.Core.Bool.{Bool, true, false}
use mathlib.Core.Option.{Option, none, some}
use mathlib.Core.Logic.{◌⊎◌, inl, inr, ◌≢◌}

pub data Error : Type 0 where
  missing wrong_version wrong_length truncated overflow excess bad_value bad_signature : Error
  mismatch unknown not_found : Error

pub data Result {ℓ} (A : Type ℓ) : Type ℓ where
  panic : Result A
  err : Error → Result A
  ok : A → Result A

module _ {ℓ κ} {B : Type κ} where
  infixl 5 ◌>>=◌
  abbrev pub ◌>>=◌ : {A : Type ℓ} → Result A → (A → Result B) → Result B
  panic >>= next = panic
  err e >>= next = err e
  ok a >>= next = next a

infixl 5 ◌>>◌
abbrev pub ◌>>◌ {κ} : {B : Type κ} → Result (Unit {0}) → Result B → Result B
panic >> next = panic
err e >> next = err e
ok _ >> next = next

-- `anyhow::ensure!`, and `bail!` under a negated test.
abbrev pub ensure : Bool → Error → Result (Unit {0})
ensure true e = ok tt
ensure false e = err e

abbrev pub or_fail {ℓ} : {A : Type ℓ} → Option A → Error → Result A
or_fail none e = err e
or_fail (some a) e = ok a

module _ {ℓ} {A : Type ℓ} where
  pub Result-cases :
      (r : Result A) → ((a : A) × (r ≡ ok a)) ⊎ ((e : Error) × (r ≡ err e)) ⊎ (r ≡ panic)
  Result-cases panic = inr (inr refl)
  Result-cases (err e) = inr (inl (e, refl))
  Result-cases (ok a) = inl (a, refl)

  pub ok_inj : (a b : A) → ok a ≡ ok b → a ≡ b
  ok_inj a b h = cc

  -- What a chain that succeeds has passed.
  pub >>=-eq-ok {κ} :
      {B : Type κ} {b : B} (m : Result A) (next : A → Result B)
      → (m >>= next) ≡ ok b
      → (a : A) × (m ≡ ok a) × (next a ≡ ok b)
  >>=-eq-ok panic next h = absurd cc
  >>=-eq-ok (err e) next h = absurd cc
  >>=-eq-ok (ok a) next h = (a, refl, h)

pub ensure-eq-ok {κ} :
    {B : Type κ} {r : B} (test : Bool) (e : Error) (rest : Result B)
    → (ensure test e >> rest) ≡ ok r
    → (test ≡ true) × (rest ≡ ok r)
ensure-eq-ok true e rest h = (refl, h)
ensure-eq-ok false e rest h = absurd cc

pub ensure-ok : (test : Bool) (e : Error) → ensure test e ≡ ok tt → test ≡ true
ensure-ok true e h = refl
ensure-ok false e h = absurd cc

-- A computation that does not panic.
abbrev pub NoPanic {ℓ} : {A : Type ℓ} → Result A → Type ℓ
NoPanic r = r ≢ panic

pub >>=-NoPanic {ℓ κ} :
    {A : Type ℓ} {B : Type κ} (m : Result A) (next : A → Result B)
    → NoPanic m
    → ((a : A) → m ≡ ok a → NoPanic (next a))
    → NoPanic (m >>= next)
>>=-NoPanic panic next h k = absurd (h refl)
>>=-NoPanic (err e) next h k = λ e. cc
>>=-NoPanic (ok a) next h k = k a refl

pub ensure-NoPanic {κ} :
    {B : Type κ} (test : Bool) (e : Error) (rest : Result B)
    → (test ≡ true → NoPanic rest)
    → NoPanic (ensure test e >> rest)
ensure-NoPanic true e rest h = h refl
ensure-NoPanic false e rest h = λ e. cc

pub >>-eq-ok {κ} :
    {B : Type κ} {r : B} (m : Result (Unit {0})) (rest : Result B)
    → (m >> rest) ≡ ok r
    → (m ≡ ok tt) × (rest ≡ ok r)
>>-eq-ok panic rest h = absurd cc
>>-eq-ok (err e) rest h = absurd cc
>>-eq-ok (ok _) rest h = (refl, h)
