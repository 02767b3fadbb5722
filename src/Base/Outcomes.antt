-- ===== src/Base/Outcomes.antt =====
-- What a call answers: a value, or what it throws. A rejected promise is the same as a throw,
-- since every promise of the program is awaited.
use Prim.Native.Nat.{ℕ}
use mathlib.Core.Path.{◌≡◌, refl}
use mathlib.Core.Bool.{Bool, true, false}
use mathlib.Core.Option.{Option}
use mathlib.Core.List.{List}
use metaframer_kernel.Base.Tests.{if◌then◌else◌}

-- The error classes that the adapters define, with the fields that they carry.
pub data AdapterError : Type 0 where
  integrity_violation : AdapterError
  chain_conflict : (tenant_id entry_id : List ℕ) → (prev_hash : Option (List ℕ)) → AdapterError
  idempotency_conflict : (tenant_id fingerprint : List ℕ) → AdapterError

-- The messages of the errors are prose and are left out; `foreign` is what a collaborator threw.
pub data Fault : Type 0 where
  type_error range_error : Fault
  adapter : AdapterError → Fault
  foreign : ℕ → Fault
  out_of_fuel : Fault

pub data Outcome {ℓ} (A : Type ℓ) : Type ℓ where
  ok : A → Outcome A
  err : Fault → Outcome A

-- `if (!test) throw …`
abbrev pub require : Bool → Fault → Outcome (Unit {0})
require test fault = if test then ok tt else err fault

module _ {ℓ κ} {A : Type ℓ} {B : Type κ} where
  infixl 5 ◌>>=◌ ◌>>◌
  abbrev pub ◌>>=◌ : Outcome A → (A → Outcome B) → Outcome B
  ok answer >>= rest = rest answer
  err fault >>= rest = err fault

  abbrev pub ◌>>◌ : Outcome A → Outcome B → Outcome B
  first >> rest = first >>= λ _. rest

  -- Inversion of a chain that answered.
  pub >>=-eq-ok :
      (first : Outcome A) (rest : A → Outcome B) {y : B}
      → first >>= rest ≡ ok y
      → (x : A) × (first ≡ ok x) × (rest x ≡ ok y)
  >>=-eq-ok (ok x) rest answered = (x, refl, answered)
  >>=-eq-ok (err fault) rest answered = cc

-- The call comes to an end: it answers what satisfies `P`, or throws a TypeError or a RangeError.
abbrev pub Ends {ℓ} : {A : Type ℓ} → (A → Type 0) → Outcome A → Type 0
Ends P (ok a) = P a
Ends P (err type_error) = Unit
Ends P (err range_error) = Unit
Ends P (err _) = ⊥

pub >>=-Ends :
    {A B : Type 0} (P : A → Type 0) (Q : B → Type 0) (m : Outcome A) (f : A → Outcome B)
    → Ends P m
    → ((a : A) → P a → Ends Q (f a))
    → Ends Q (m >>= f)
>>=-Ends P Q (ok a) f h k = k a h
>>=-Ends P Q (err type_error) f h k = tt
>>=-Ends P Q (err range_error) f h k = tt
>>=-Ends P Q (err (adapter a)) f h k = h
>>=-Ends P Q (err (foreign n)) f h k = h
>>=-Ends P Q (err out_of_fuel) f h k = h

pub Ends-ne-out_of_fuel :
    {A : Type 0} (P : A → Type 0) (m : Outcome A) → Ends P m → (m ≡ err out_of_fuel) → ⊥
Ends-ne-out_of_fuel P (ok a) h e = cc
Ends-ne-out_of_fuel P (err type_error) h e = cc
Ends-ne-out_of_fuel P (err range_error) h e = cc
Ends-ne-out_of_fuel P (err (adapter a)) h e = h
Ends-ne-out_of_fuel P (err (foreign n)) h e = h
Ends-ne-out_of_fuel P (err out_of_fuel) h e = h

pub Ends-ok : {A : Type 0} (P : A → Type 0) (m : Outcome A) (a : A) → Ends P m → m ≡ ok a → P a
Ends-ok P (ok b) a h e = rw (← (ok-injective e)) h
  where
    ok-injective : ok b ≡ ok a → b ≡ a
    ok-injective e = cc
Ends-ok P (err f) a h e = cc

pub require-Ends :
    {B : Type 0} (Q : B → Type 0) (b : Bool) (e : Fault) (k : Outcome B)
    → Ends (λ (u : Unit {0}). Unit {0}) (err e)
    → (b ≡ true → Ends Q k)
    → Ends Q (require b e >> k)
require-Ends Q true e k h f = f refl
require-Ends Q false type_error k h f = tt
require-Ends Q false range_error k h f = tt
require-Ends Q false (adapter a) k h f = h
require-Ends Q false (foreign n) k h f = h
require-Ends Q false out_of_fuel k h f = h

pub Ends-mono :
    {A : Type 0} (P Q : A → Type 0) (m : Outcome A) → Ends P m → ((a : A) → P a → Q a) → Ends Q m
Ends-mono P Q (ok a) h k = k a h
Ends-mono P Q (err type_error) h k = tt
Ends-mono P Q (err range_error) h k = tt
Ends-mono P Q (err (adapter a)) h k = h
Ends-mono P Q (err (foreign n)) h k = h
Ends-mono P Q (err out_of_fuel) h k = h

-- What holds of the answer, if there is one.
abbrev pub OnOk {ℓ} : {A : Type ℓ} → (A → Type 0) → Outcome A → Type 0
OnOk P (ok a) = P a
OnOk P (err _) = Unit

-- The rule of a bind hands the continuation the equation of what was bound.
pub >>=-OnOk :
    {A B : Type 0} (Q : B → Type 0) (m : Outcome A) (f : A → Outcome B)
    → ((a : A) → m ≡ ok a → OnOk Q (f a))
    → OnOk Q (m >>= f)
>>=-OnOk Q (ok a) f k = k a refl
>>=-OnOk Q (err e) f k = tt

pub OnOk-intro :
    {A : Type 0} (P : A → Type 0) (m : Outcome A) → ((a : A) → m ≡ ok a → P a) → OnOk P m
OnOk-intro P (ok a) k = k a refl
OnOk-intro P (err e) k = tt

pub OnOk_elim : {A : Type 0} (P : A → Type 0) (m : Outcome A) {a : A} → OnOk P m → m ≡ ok a → P a
OnOk_elim P (ok b) {a} h e = path_subst e h
  where
    path_subst : ok b ≡ ok a → P b → P a
    path_subst e h = let same : a ≡ b = cc in rw same h
OnOk_elim P (err f) h e = cc

pub require-OnOk :
    {B : Type 0} (Q : B → Type 0) (b : Bool) (e : Fault) (k : Outcome B)
    → (b ≡ true → OnOk Q k)
    → OnOk Q (require b e >> k)
require-OnOk Q true e k f = f refl
require-OnOk Q false e k f = tt

pub OnOk-mono :
    {A : Type 0} (P Q : A → Type 0) (m : Outcome A) → OnOk P m → ((a : A) → P a → Q a) → OnOk Q m
OnOk-mono P Q (ok a) h k = k a h
OnOk-mono P Q (err e) h k = tt
