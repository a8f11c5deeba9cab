-- ===== src/Base/Run.antt =====
-- What a run of C code comes to: a value, undefined behaviour (an access out of bounds, a null or
-- dangling pointer), a failed `assert`, or rounds of a loop that ran out.
use Prim.Native.Nat.{ℕ}
use mathlib.Core.Path.{◌≡◌, refl, sym, ap, ◌∙◌}
use mathlib.Core.Bool.{Bool, true, false}
use mathlib.Core.Option.{Option, none, some}
use cuts.Base.Tests.{if◌then◌else◌}

pub data Exec {ℓ} (A : Type ℓ) : Type ℓ where
  ok : A → Exec A
  undefined : Exec A
  aborted : Exec A
  out_of_fuel : Exec A

infixl 5 ◌>>=◌ ◌>>◌
abbrev pub ◌>>=◌ {ℓ κ} : {A : Type ℓ} {B : Type κ} → Exec A → (A → Exec B) → Exec B
undefined >>= next = undefined
aborted >>= next = aborted
out_of_fuel >>= next = out_of_fuel
ok x >>= next = next x

abbrev pub ◌>>◌ {ℓ} : {B : Type ℓ} → Exec (Unit {0}) → Exec B → Exec B
first >> second = first >>= λ _. second

-- `assert`
abbrev pub assert : Bool → Exec (Unit {0})
assert true = ok tt
assert false = aborted

-- An access that the C standard leaves undefined unless the test holds.
abbrev pub require : Bool → Exec (Unit {0})
require true = ok tt
require false = undefined

pub >>=-eq-ok {ℓ κ} :
    {A : Type ℓ} {B : Type κ} (run : Exec A) (next : A → Exec B) {b : B}
    → (run >>= next) ≡ ok b
    → (x : A) × (run ≡ ok x) × (next x ≡ ok b)
>>=-eq-ok undefined next e = cc
>>=-eq-ok aborted next e = cc
>>=-eq-ok out_of_fuel next e = cc
>>=-eq-ok (ok x) next e = (x, refl, e)

-- A run whose first step ends in `x`
pub >>=-after {ℓ κ} :
    {A : Type ℓ} {B : Type κ} {run : Exec A} {x : A} (next : A → Exec B) {r : Exec B}
    → run ≡ ok x
    → next x ≡ r
    → (run >>= next) ≡ r
>>=-after next e f = ap (λ run. run >>= next) e ∙ f

module _ {ℓ κ} {A : Type ℓ} {B : Type κ} where
  pub >>=-cong :
      (run : Exec A) {f g : A → Exec B} → ((x : A) → f x ≡ g x) → (run >>= f) ≡ (run >>= g)
  >>=-cong undefined same = refl
  >>=-cong aborted same = refl
  >>=-cong out_of_fuel same = refl
  >>=-cong (ok x) same = same x

  pub >>=_assoc {μ} :
      {C : Type μ} (run : Exec A) (f : A → Exec B) (g : B → Exec C)
      → ((run >>= f) >>= g) ≡ (run >>= λ x. f x >>= g)
  >>=_assoc undefined f g = refl
  >>=_assoc aborted f g = refl
  >>=_assoc out_of_fuel f g = refl
  >>=_assoc (ok x) f g = refl

pub >>=_ok {ℓ} : {A : Type ℓ} (run : Exec A) → (run >>= λ x. ok x) ≡ run
>>=_ok undefined = refl
>>=_ok aborted = refl
>>=_ok out_of_fuel = refl
>>=_ok (ok x) = refl

abbrev get_or {ℓ} : {A : Type ℓ} → A → Exec A → A
get_or d (ok a) = a
get_or d undefined = d
get_or d aborted = d
get_or d out_of_fuel = d

-- The `int` results of the functions: -1 for a failure.
pub data ℤ : Type 0 where
  pos : ℕ → ℤ
  negsuc : ℕ → ℤ

-- Two results of one run are equal.
pub ok_injective {ℓ} : {A : Type ℓ} {x : Exec A} {a b : A} → x ≡ ok a → x ≡ ok b → a ≡ b
ok_injective {a} e f = ap (get_or a) (sym e ∙ f)

-- The run does not stop for want of rounds.
pub data Ends {ℓ} {A : Type ℓ} : Exec A → Type ℓ where
  returns : {a : A} → Ends (ok a)
  faults : Ends undefined
  aborts : Ends aborted

module _ {ℓ κ} {A : Type ℓ} {B : Type κ} where
  pub >>=-Ends :
      {run : Exec A} {next : A → Exec B}
      → Ends run
      → ((x : A) → Ends (next x))
      → Ends (run >>= next)
  >>=-Ends (returns {a}) rest = rest a
  >>=-Ends faults rest = faults
  >>=-Ends aborts rest = aborts

pub if-Ends {ℓ} :
    {A : Type ℓ} (test : Bool) {x y : Exec A} → Ends x → Ends y → Ends (if test then x else y)
if-Ends true e f = e
if-Ends false e f = f

module _ {ℓ κ} {A : Type ℓ} {B : Type κ} where
  pub option-Ends :
      (o : Option A) {x : Exec B} {f : A → Exec B}
      → Ends x
      → ((a : A) → Ends (f a))
      → Ends (elim o [ none ↦ x | some a ↦ f a ])
  option-Ends none e es = e
  option-Ends (some a) e es = es a

pub require-Ends : (test : Bool) → Ends (require test)
require-Ends true = returns
require-Ends false = faults

pub assert-Ends : (test : Bool) → Ends (assert test)
assert-Ends true = returns
assert-Ends false = aborts

-- So too, and its value satisfies `P`.
pub data EndsIn {ℓ κ} {A : Type ℓ} (P : A → Type κ) : Exec A → Type (ℓ ⊔ κ) where
  returns_in : {a : A} → P a → EndsIn P (ok a)
  faults_in : EndsIn P undefined
  aborts_in : EndsIn P aborted

module _ {A B : Type 0} where
  pub bind-Ends :
      {P : A → Type 0} {run : Exec A} {next : A → Exec B}
      → EndsIn P run
      → ((x : A) → P x → Ends (next x))
      → Ends (run >>= next)
  bind-Ends (returns_in {a} h) rest = rest a h
  bind-Ends faults_in rest = faults
  bind-Ends aborts_in rest = aborts

  pub bind-EndsIn :
      {P : A → Type 0} {Q : B → Type 0} {run : Exec A} {next : A → Exec B}
      → EndsIn P run
      → ((x : A) → P x → EndsIn Q (next x))
      → EndsIn Q (run >>= next)
  bind-EndsIn (returns_in {a} h) rest = rest a h
  bind-EndsIn faults_in rest = faults_in
  bind-EndsIn aborts_in rest = aborts_in

  pub then-EndsIn :
      {Q : B → Type 0} {run : Exec A} {next : A → Exec B}
      → Ends run
      → ((x : A) → EndsIn Q (next x))
      → EndsIn Q (run >>= next)
  then-EndsIn (Ends.returns {a}) rest = rest a
  then-EndsIn faults rest = faults_in
  then-EndsIn aborts rest = aborts_in

  pub option-EndsIn :
      {Q : B → Type 0} (o : Option A) {x : Exec B} {f : A → Exec B}
      → EndsIn Q x
      → ((a : A) → EndsIn Q (f a))
      → EndsIn Q (elim o [ none ↦ x | some a ↦ f a ])
  option-EndsIn none e es = e
  option-EndsIn (some a) e es = es a
