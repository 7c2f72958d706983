-- ===== src/Base/Arrays.antt =====
-- C arrays as functions of the index, with the loops `for (i = 0; i != n; ++i)` over them.
use Prim.Native.Nat.{ℕ, zero, suc, ◌+◌, ◌<◌}
use mathlib.Core.Path.{◌≡◌}
use mathlib.Core.Logic.{◌≢◌}
use native.Mathlib.Omega.{arith}
use coco_os.Base.Tests.{◌==◌, if◌then◌else◌}
use coco_os.Base.Outcome.{
  Result, ok, ◌>>=◌, Returns, Returns-elim, Safe, Safe_bind, Partly, Partly_bind,
}

abbrev pub update {ℓ} : {A : Type ℓ} → (ℕ → A) → ℕ → A → ℕ → A
update f i v j = if i == j then v else f j

pub update_self {ℓ} : {A : Type ℓ} (f : ℕ → A) (i : ℕ) (v : A) → update f i v i ≡ v
update_self f i v = ground arith

pub update_ne {ℓ} : {A : Type ℓ} (f : ℕ → A) (i j : ℕ) (v : A) → i ≢ j → update f i v j ≡ f j
update_ne f i j v h = ground arith

-- `n` rounds of the body, at the indices `i`, `i + 1`, ….
unfoldable pub for_range {ℓ} : {S : Type ℓ} → ℕ → ℕ → (ℕ → S → Result S) → S → Result S
for_range zero i body s = ok s
for_range (suc n) i body s = body i s >>= λ s'. for_range n (i + 1) body s'

-- A loop whose rounds keep an invariant returns, and ends at the invariant of the last index.
pub for_range_inv {ℓ} :
    {S : Type ℓ} (P : ℕ → S → Type 0) (body : ℕ → S → Result S) (end : ℕ)
    → ((i : ℕ) (s : S) → i < end → P i s → Returns (body i s) (P (i + 1)))
    → (n i : ℕ) (s : S) → i + n ≡ end
    → P i s
    → Returns (for_range n i body s) (P end)
unfolding for_range
for_range_inv P body end keep zero i s e h = let e' : i ≡ end = omega arith in rw (← e') h
for_range_inv P body end keep (suc n) i s e h =
    let (s₁, e₁, h₁) = Returns-elim (body i s) (P (i + 1)) (keep i s (omega arith) h) in
    rw e₁ (for_range_inv P body end keep n (i + 1) s₁ (omega arith) h₁)

-- The same of a loop in which assertions may fail.
pub for_range_safe {ℓ} :
    {S : Type ℓ} (P : ℕ → S → Type 0) (body : ℕ → S → Result S) (end : ℕ)
    → ((i : ℕ) (s : S) → i < end → P i s → Safe (body i s) (P (i + 1)))
    → (n i : ℕ) (s : S) → i + n ≡ end
    → P i s
    → Safe (for_range n i body s) (P end)
unfolding for_range
for_range_safe P body end keep zero i s e h = let e' : i ≡ end = omega arith in rw (← e') h
for_range_safe P body end keep (suc n) i s e h =
    Safe_bind (body i s) _ (P (i + 1)) (P end) (keep i s (omega arith) h)
      (λ s₁ h₁. for_range_safe P body end keep n (i + 1) s₁ (omega arith) h₁)

-- A loop each round of which, if it returns, keeps `P`.
pub for_range_partly {ℓ} :
    {S : Type ℓ} (P : S → Type 0) (body : ℕ → S → Result S)
    → ((i : ℕ) (s : S) → P s → Partly (body i s) P)
    → (n i : ℕ) (s : S) → P s
    → Partly (for_range n i body s) P
unfolding for_range
for_range_partly P body keep zero i s h = h
for_range_partly P body keep (suc n) i s h =
    Partly_bind (body i s) _ P P (keep i s h)
      (λ s₁ h₁. for_range_partly P body keep n (i + 1) s₁ h₁)
