-- ===== src/Prelude/Faults.antt =====
-- Results of C code that may leave the memory it owns. A `fault` stands where the C code has
-- undefined behaviour (an access out of bounds, a null pointer, a division by zero) or where the
-- model's fuel runs out; the fault names the place.
use mathlib.Core.Logic.{◌⊎◌, inl, inr}
use mathlib.Core.Path.{◌≡◌, refl, subst}
use mathlib.Core.Bool.{Bool, true, false}
use mathlib.Core.Option.{Option, none, some}
use wifi_sniffer.Prelude.Tests.{if◌then◌else◌}

pub data Fault : Type 0 where
  ies_overread ssid_overread ssid_overflow : Fault
  aps_overflow freqs_overflow packet_buf_overflow : Fault
  body_overread skb_overread arg_overread : Fault
  null_pointer div_by_zero short_overflow no_enumerator out_of_fuel : Fault

pub data Outcome {ℓ} (A : Type ℓ) : Type ℓ where
  ok : A → Outcome A
  fault : Fault → Outcome A

infixl 5 ◌>>=◌ ◌>>◌
abbrev pub ◌>>=◌ {ℓ κ} : {A : Type ℓ} {B : Type κ} → Outcome A → (A → Outcome B) → Outcome B
ok a >>= f = f a
fault e >>= f = fault e

abbrev pub ◌>>◌ {ℓ} : {B : Type ℓ} → Outcome (Unit {0}) → Outcome B → Outcome B
m >> k = m >>= λ _. k

abbrev pub or_fault {ℓ} : {A : Type ℓ} → Option A → Fault → Outcome A
or_fault none e = fault e
or_fault (some a) e = ok a

-- A test that the C code does not make, and whose failure is undefined behaviour.
abbrev pub check : Bool → Fault → Outcome (Unit {0})
check true e = ok tt
check false e = fault e

pub Outcome-cases {ℓ} :
    {A : Type ℓ} (o : Outcome A) → ((a : A) × (o ≡ ok a)) ⊎ ((e : Fault) × (o ≡ fault e))
Outcome-cases (ok a) = inl (a, refl)
Outcome-cases (fault e) = inr (e, refl)

-- A result, and not a fault.
abbrev pub Returns {ℓ} : {A : Type ℓ} → Outcome A → Type ℓ
Returns {A = A} o = (a : A) × (o ≡ ok a)

pub ok-Returns {ℓ} : {A : Type ℓ} (a : A) → Returns (ok a)
ok-Returns a = (a, refl)

pub >>=-Returns {ℓ κ} :
    {A : Type ℓ} {B : Type κ} (m : Outcome A) (f : A → Outcome B)
    → Returns m
    → ((a : A) → m ≡ ok a → Returns (f a))
    → Returns (m >>= f)
>>=-Returns m f (a, e) k = let (b, q) = k a e in (b, rw e q)

pub >>=-ok {ℓ κ} :
    {A : Type ℓ} {B : Type κ} (m : Outcome A) (f : A → Outcome B) {a : A} {r : Outcome B}
    → m ≡ ok a
    → f a ≡ r
    → (m >>= f) ≡ r
>>=-ok m f e q = rw e q

-- A property of the result, if there is one.
abbrev pub Ensures {ℓ κ} : {A : Type ℓ} → (A → Type κ) → Outcome A → Type κ
Ensures P (ok a) = P a
Ensures P (fault e) = Unit

pub >>=-Ensures {ℓ κ μ} :
    {A : Type ℓ} {B : Type κ} (P : B → Type μ) (m : Outcome A) (f : A → Outcome B)
    → ((a : A) → m ≡ ok a → Ensures P (f a))
    → Ensures P (m >>= f)
>>=-Ensures P (ok a) f k = k a refl
>>=-Ensures P (fault e) f k = tt

pub Ensures-at {ℓ κ} :
    {A : Type ℓ} (P : A → Type κ) {m : Outcome A} {a : A} → m ≡ ok a → Ensures P m → P a
Ensures-at P e p = subst (λ m. Ensures P m) e p

pub if-Ensures {ℓ κ} :
    {A : Type ℓ} (P : A → Type κ) (b : Bool) (m n : Outcome A)
    → (b ≡ true → Ensures P m)
    → (b ≡ false → Ensures P n)
    → Ensures P (if b then m else n)
if-Ensures P true m n h k = h refl
if-Ensures P false m n h k = k refl

pub or_fault-Ensures {ℓ κ} :
    {A : Type ℓ} (P : A → Type κ) (o : Option A) (e : Fault)
    → ((a : A) → o ≡ some a → P a)
    → Ensures P (or_fault o e)
or_fault-Ensures P none e h = tt
or_fault-Ensures P (some a) e h = h a refl
