-- ===== src/Base/Outcome.antt =====
-- How a C function of the kernel ends: os_utils/include/os_assert.h, os_utils/src/os_assert.c.
-- A failed assertion calls `os_on_assert`, which never returns; an access outside an array, a
-- division by zero and a loop that cannot end are outcomes of their own.
use coco_os.Base.Tests.{◌==◌, if◌then◌else◌}
use Prim.Native.Nat.{ℕ}
use mathlib.Core.Path.{◌≡◌, refl}
use mathlib.Core.Bool.{Bool, true, false}

pub data Halt : Type 0 where
  assertion : Halt
  bad_access : Halt
  div_by_zero : Halt
  spinning : Halt

pub data Result {ℓ} (A : Type ℓ) : Type ℓ where
  ok : A → Result A
  halt : Halt → Result A

infixl 5 ◌>>=◌ ◌>>◌
abbrev pub ◌>>=◌ {ℓ κ} : {A : Type ℓ} {B : Type κ} → Result A → (A → Result B) → Result B
ok a >>= f = f a
halt e >>= f = halt e

abbrev pub ◌>>◌ {ℓ} : {B : Type ℓ} → Result (Unit {0}) → Result B → Result B
m >> k = m >>= λ _. k

-- `os_assert` and `os_assert_with_return`: past a failed test nothing runs.
abbrev pub os_assert : Bool → Result (Unit {0})
os_assert true = ok tt
os_assert false = halt assertion

-- An array of `size` cells is read or written at an index in range.
abbrev pub in_range : Bool → Result (Unit {0})
in_range true = ok tt
in_range false = halt bad_access

-- A divisor.
abbrev pub div_guard : ℕ → Result (Unit {0})
div_guard n = if n == 0 then halt div_by_zero else ok tt

-- The call returns, with a value of which `P` holds.
abbrev pub Returns {ℓ} : {A : Type ℓ} → Result A → (A → Type 0) → Type 0
Returns (ok a) P = P a
Returns (halt h) P = ⊥

pub Returns-elim {ℓ} :
    {A : Type ℓ} (r : Result A) (P : A → Type 0) → Returns r P → (a : A) × (r ≡ ok a) × P a
Returns-elim (ok a) P h = (a, refl, h)
Returns-elim (halt e) P h = absurd h

pub Returns-intro {ℓ} :
    {A : Type ℓ} (r : Result A) (P : A → Type 0) {a : A} → r ≡ ok a → P a → Returns r P
Returns-intro r P e h = rw e h

pub Returns_bind {ℓ κ} :
    {A : Type ℓ} {B : Type κ} (r : Result A) (f : A → Result B) (P : A → Type 0) (Q : B → Type 0)
    → Returns r P
    → ((a : A) → P a → Returns (f a) Q)
    → Returns (r >>= f) Q
Returns_bind (ok a) f P Q h k = k a h
Returns_bind (halt e) f P Q h k = h

-- If two calls return, one after the other, the first one does.
pub Returns_split {ℓ κ} :
    {A : Type ℓ} {B : Type κ} (r : Result A) (f : A → Result B) (Q : B → Type 0)
    → Returns (r >>= f) Q
    → Returns r (λ a. Returns (f a) Q)
Returns_split (ok a) f Q h = h
Returns_split (halt e) f Q h = h

pub Returns_mono {ℓ} :
    {A : Type ℓ} (r : Result A) (P Q : A → Type 0)
    → Returns r P
    → ((a : A) → P a → Q a)
    → Returns r Q
Returns_mono (ok a) P Q h f = f a h
Returns_mono (halt e) P Q h f = h

-- What holds of the value for each number holds for all at once.
pub Returns_forall {ℓ} :
    {A : Type ℓ} (r : Result A) (P : ℕ → A → Type 0)
    → ((i : ℕ) → Returns r (P i))
    → Returns r (λ a. (i : ℕ) → P i a)
Returns_forall (ok a) P h = h
Returns_forall (halt e) P h = h 0

-- A call that is followed by two steps, written as one step or as two.
pub bind_steps {ℓ κ μ} :
    {A : Type ℓ} {B : Type κ} {C : Type μ} (r : Result A) (f : A → Result C) (g : A → Result B)
    (h : B → Result C)
    → ((a : A) → f a ≡ (g a >>= h))
    → (r >>= f) ≡ ((r >>= g) >>= h)
bind_steps (ok a) f g h same = same a
bind_steps (halt e) f g h same = refl

-- The call returns, with a value of which `P` holds, or an assertion fails: it makes no access out
-- of bounds, no division by zero, and it does not run on.
abbrev pub Safe {ℓ} : {A : Type ℓ} → Result A → (A → Type 0) → Type 0
Safe (ok a) P = P a
Safe (halt assertion) P = Unit {0}
Safe (halt bad_access) P = ⊥
Safe (halt div_by_zero) P = ⊥
Safe (halt spinning) P = ⊥

pub Safe_of_Returns {ℓ} : {A : Type ℓ} (r : Result A) (P : A → Type 0) → Returns r P → Safe r P
Safe_of_Returns (ok a) P h = h
Safe_of_Returns (halt e) P h = absurd h

pub Safe_bind {ℓ κ} :
    {A : Type ℓ} {B : Type κ} (r : Result A) (f : A → Result B) (P : A → Type 0) (Q : B → Type 0)
    → Safe r P
    → ((a : A) → P a → Safe (f a) Q)
    → Safe (r >>= f) Q
Safe_bind (ok a) f P Q h k = k a h
Safe_bind (halt assertion) f P Q h k = tt
Safe_bind (halt bad_access) f P Q h k = absurd h
Safe_bind (halt div_by_zero) f P Q h k = absurd h
Safe_bind (halt spinning) f P Q h k = absurd h

pub Safe_mono {ℓ} :
    {A : Type ℓ} (r : Result A) (P Q : A → Type 0) → Safe r P → ((a : A) → P a → Q a) → Safe r Q
Safe_mono (ok a) P Q h f = f a h
Safe_mono (halt assertion) P Q h f = tt
Safe_mono (halt bad_access) P Q h f = h
Safe_mono (halt div_by_zero) P Q h f = h
Safe_mono (halt spinning) P Q h f = h

-- What holds of the value for each number holds for all at once.
pub Safe_forall {ℓ} :
    {A : Type ℓ} (r : Result A) (P : ℕ → A → Type 0)
    → ((i : ℕ) → Safe r (P i))
    → Safe r (λ a. (i : ℕ) → P i a)
Safe_forall (ok a) P h = h
Safe_forall (halt assertion) P h = tt
Safe_forall (halt bad_access) P h = h 0
Safe_forall (halt div_by_zero) P h = h 0
Safe_forall (halt spinning) P h = h 0

-- Past an assertion its test holds.
pub Safe_assert {ℓ} :
    {A : Type ℓ} (b : Bool) (k : Result A) (P : A → Type 0)
    → (b ≡ true → Safe k P)
    → Safe (os_assert b >> k) P
Safe_assert true k P h = h refl
Safe_assert false k P h = tt

-- If the call returns, `P` holds of the value.
abbrev pub Partly {ℓ} : {A : Type ℓ} → Result A → (A → Type 0) → Type 0
Partly (ok a) P = P a
Partly (halt e) P = Unit {0}

pub Partly_of_Safe {ℓ} : {A : Type ℓ} (r : Result A) (P : A → Type 0) → Safe r P → Partly r P
Partly_of_Safe (ok a) P h = h
Partly_of_Safe (halt e) P h = tt

pub Partly_bind {ℓ κ} :
    {A : Type ℓ} {B : Type κ} (r : Result A) (f : A → Result B) (P : A → Type 0) (Q : B → Type 0)
    → Partly r P
    → ((a : A) → P a → Partly (f a) Q)
    → Partly (r >>= f) Q
Partly_bind (ok a) f P Q h k = k a h
Partly_bind (halt e) f P Q h k = tt

pub Partly_mono {ℓ} :
    {A : Type ℓ} (r : Result A) (P Q : A → Type 0) → Partly r P → ((a : A) → P a → Q a) → Partly r Q
Partly_mono (ok a) P Q h f = f a h
Partly_mono (halt e) P Q h f = tt

pub Partly_any {ℓ} : {A : Type ℓ} (r : Result A) → Partly r (λ a. Unit {0})
Partly_any (ok a) = tt
Partly_any (halt e) = tt

pub Partly_assert {ℓ} :
    {A : Type ℓ} (b : Bool) (k : Result A) (P : A → Type 0)
    → (b ≡ true → Partly k P)
    → Partly (os_assert b >> k) P
Partly_assert true k P h = h refl
Partly_assert false k P h = tt

-- A call that returns has what holds of it if it returns.
pub Returns_of_Partly {ℓ} :
    {A : Type ℓ} (r : Result A) (P Q : A → Type 0) → Returns r P → Partly r Q → Returns r Q
Returns_of_Partly (ok a) P Q h k = k
Returns_of_Partly (halt e) P Q h k = absurd h

-- Two facts about a call that returns.
pub Returns_and_Safe {ℓ} :
    {A : Type ℓ} (r : Result A) (P Q : A → Type 0)
    → Returns r P
    → Safe r Q
    → Returns r (λ a. P a × Q a)
Returns_and_Safe (ok a) P Q h k = (h, k)
Returns_and_Safe (halt e) P Q h k = absurd h
