-- ===== src/Common/Process.antt =====
-- What a piece of a process ends in: a value, the end of the process, or an undefined access.
use Prim.Native.Nat.{ℕ}
use mathlib.Core.Path.{◌≡◌, refl}
use mathlib.Core.Bool.{Bool, true, false}

-- `exit code` is the call of exit or the return from main; `fault` is an access outside an object
-- or through a null pointer, about which the language says nothing.
pub data Run {ℓ} (A : Type ℓ) : Type ℓ where
  ok : A → Run A
  exit : ℕ → Run A
  fault : Run A

infixl 5 ◌>>=◌ ◌>>◌
abbrev pub ◌>>=◌ {ℓ κ} : {A : Type ℓ} {B : Type κ} → Run A → (A → Run B) → Run B
ok a >>= f = f a
exit n >>= f = exit n
fault >>= f = fault

abbrev pub ◌>>◌ {ℓ} : {B : Type ℓ} → Run (Unit {0}) → Run B → Run B
m >> k = m >>= λ _. k

pub ok-injective {ℓ} : {A : Type ℓ} {a b : A} → ok a ≡ ok b → a ≡ b
ok-injective h = cc

-- A guard: the process ends with `code` unless the test holds.
abbrev pub ensure : Bool → ℕ → Run (Unit {0})
ensure true code = ok tt
ensure false code = exit code

-- A chain that goes on is one whose first piece does.
pub chain-parts {ℓ κ} :
    {A : Type ℓ} {B : Type κ} (step : Run A) (rest : A → Run B) {out : B}
    → (step >>= rest) ≡ ok out
    → (x : A) × (step ≡ ok x) × (rest x ≡ ok out)
chain-parts fault rest h = absurd (cc)
chain-parts (exit code) rest h = absurd (cc)
chain-parts (ok x) rest h = (x, refl, h)
