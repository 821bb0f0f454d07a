-- ===== src/Run.antt =====
-- How a call of the C++ code ends: it returns, a failed MZX_CHECK aborts the process, an access
-- outside of the memory it owns has no defined result, or the model's loop bound runs out.
use mzx.Base.{◌≡◌, refl, Bool, true, false, if◌then◌else◌}

pub data Run {ℓ} (A : Type ℓ) : Type ℓ where
  ok : A → Run A
  abort fault out_of_fuel : Run A

infixl 5 ◌>>=◌ ◌>>◌
abbrev pub ◌>>=◌ {ℓ κ} : {A : Type ℓ} {B : Type κ} → Run A → (A → Run B) → Run B
ok a >>= f = f a
abort >>= f = abort
fault >>= f = fault
out_of_fuel >>= f = out_of_fuel

abbrev pub ◌>>◌ {ℓ} : {B : Type ℓ} → Run (Unit {0}) → Run B → Run B
m >> k = m >>= λ _. k

-- MZX_CHECK(c)
abbrev pub check : Bool → Run (Unit {0})
check true = ok tt
check false = abort

-- the call ends by returning a value that satisfies `P`
pub data Returns {ℓ κ} {A : Type ℓ} (P : A → Type κ) : Run A → Type (ℓ ⊔ κ) where
  returns : {v : A} → P v → Returns P (ok v)

module _ {ℓ κ} {A : Type ℓ} {P : A → Type κ} where
  pub result : {r : Run A} → Returns P r → (a : A) × (r ≡ ok a) × P a
  result (returns p) = (_, refl, p)

  pub on_test :
      {x y : Run A} (t : Bool)
      → (t ≡ true → Returns P x)
      → (t ≡ false → Returns P y)
      → Returns P (if t then x else y)
  on_test false p q = q refl
  on_test true p q = p refl

  pub weaken {κ'} :
      {Q : A → Type κ'} {r : Run A} → Returns P r → ((a : A) → P a → Q a) → Returns Q r
  weaken (returns p) imp = returns (imp _ p)

  pub and_then {ℓ' κ'} :
      {C : Type ℓ'} {R : C → Type κ'} {call : Run A} {next : A → Run C}
      → Returns P call
      → ((v : A) → P v → Returns R (next v))
      → Returns R (call >>= next)
  and_then (returns p) rest = rest _ p

-- the call returns a value that satisfies `P`, or it needs more rounds
pub data Safe {ℓ κ} {A : Type ℓ} (P : A → Type κ) : Run A → Type (ℓ ⊔ κ) where
  done : {v : A} → P v → Safe P (ok v)
  spent : Safe P out_of_fuel

module _ {ℓ κ} {A : Type ℓ} {P : A → Type κ} where
  pub in_time : {r : Run A} → Returns P r → Safe P r
  in_time (returns p) = done p

  pub chain {ℓ' κ'} :
      {C : Type ℓ'} {R : C → Type κ'} {call : Run A} {next : A → Run C}
      → Safe P call
      → ((v : A) → P v → Safe R (next v))
      → Safe R (call >>= next)
  chain (done p) rest = rest _ p
  chain spent rest = spent

  pub given : {v : A} → Returns P (ok v) → P v
  given (returns p) = p

-- the call returns a value that satisfies `P`, fails a check, or needs more rounds: it is no fault
pub data NoFault {ℓ κ} {A : Type ℓ} (P : A → Type κ) : Run A → Type (ℓ ⊔ κ) where
  finished : {v : A} → P v → NoFault P (ok v)
  stopped : NoFault P abort
  exhausted : NoFault P out_of_fuel

module _ {ℓ κ} {A : Type ℓ} {P : A → Type κ} where
  pub no_fault : {r : Run A} → Returns P r → NoFault P r
  no_fault (returns p) = finished p

  pub carry_on {ℓ' κ'} :
      {C : Type ℓ'} {R : C → Type κ'} {call : Run A} {next : A → Run C}
      → NoFault P call
      → ((v : A) → P v → NoFault R (next v))
      → NoFault R (call >>= next)
  carry_on (finished p) rest = rest _ p
  carry_on stopped rest = stopped
  carry_on exhausted rest = exhausted

-- if the call returns a value, that value satisfies `P`; nothing is said of a call that does not
pub data OnReturn {ℓ κ} {A : Type ℓ} (P : A → Type κ) : Run A → Type (ℓ ⊔ κ) where
  on_return : {v : A} → P v → OnReturn P (ok v)
  on_abort : OnReturn P abort
  on_fault : OnReturn P fault
  on_spent : OnReturn P out_of_fuel

module _ {ℓ κ} {A : Type ℓ} {P : A → Type κ} where
  pub proceed {ℓ' κ'} :
      {C : Type ℓ'} {R : C → Type κ'} {call : Run A} {next : A → Run C}
      → OnReturn P call
      → ((v : A) → P v → OnReturn R (next v))
      → OnReturn R (call >>= next)
  proceed (on_return p) rest = rest _ p
  proceed on_abort rest = on_abort
  proceed on_fault rest = on_fault
  proceed on_spent rest = on_spent

  pub proceed_if :
      {x y : Run A} (t : Bool)
      → (t ≡ true → OnReturn P x)
      → (t ≡ false → OnReturn P y)
      → OnReturn P (if t then x else y)
  proceed_if false p q = q refl
  proceed_if true p q = p refl

  pub loosen {κ'} :
      {Q : A → Type κ'} {r : Run A} → OnReturn P r → ((a : A) → P a → Q a) → OnReturn Q r
  loosen (on_return p) imp = on_return (imp _ p)
  loosen on_abort imp = on_abort
  loosen on_fault imp = on_fault
  loosen on_spent imp = on_spent

  pub both {κ'} :
      {Q : A → Type κ'} {r : Run A} → Returns P r → OnReturn Q r → Returns (λ a. P a × Q a) r
  both (returns p) (on_return q) = returns (p, q)
