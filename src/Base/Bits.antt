-- ===== src/Base/Bits.antt =====
-- Bits of a byte: `b | (1 << k)`, `b & ~(1 << k)` and `b & (1 << k)`. Their laws are checked at
-- every byte.
use Prim.Native.Nat.{ℕ, zero, suc, ◌-◌, ◌^◌, ◌%◌, ◌<◌, bit_and, bit_or, bit_and-bitwise}
use mathlib.Core.Path.{◌≡◌, refl}
use mathlib.Core.Bool.{Bool, true, false, ◌&&◌, ◌||◌, not}
use native.Mathlib.Omega.{arith}
use coco_os.Base.Tests.{ltb, ◌==◌}

pub set_bit : ℕ → ℕ → ℕ
set_bit b k = bit_or b (2 ^ k) % 256

pub clear_bit : ℕ → ℕ → ℕ
clear_bit b k = bit_and b (255 - 2 ^ k)

unfoldable pub has_bit : ℕ → ℕ → Bool
has_bit b k = not (bit_and b (2 ^ k) == 0)

unfoldable pub all_below : ℕ → (ℕ → Bool) → Bool
all_below zero p = true
all_below (suc n) p = p n && all_below n p

pub all_below_sound : (p : ℕ → Bool) (n x : ℕ) → x < n → all_below n p ≡ true → p x ≡ true
unfolding all_below
all_below_sound p zero x below all = absurd (omega arith)
all_below_sound p (suc m) x below all = ground (arith, all_below_sound p m x)

-- A Boolean law of a byte and two bit numbers.
all_bytes : (ℕ → ℕ → ℕ → Bool) → Bool
unfolding all_below
all_bytes p = all_below 256 λ b. all_below 8 λ k. all_below 8 λ j. p b k j

all_bytes_sound :
    (p : ℕ → ℕ → ℕ → Bool) (b k j : ℕ)
    → all_bytes p ≡ true
    → b < 256
    → k < 8
    → j < 8
    → p b k j ≡ true
all_bytes_sound p b k j h hb hk hj = all_below_sound (p b k) 8 j hj (
    all_below_sound (λ k. all_below 8 (p b k)) 8 k hk
      (all_below_sound (λ b. all_below 8 λ k. all_below 8 (p b k)) 256 b hb
        (unfold all_bytes in h)))

abbrev same : Bool → Bool → Bool
same true c = c
same false c = not c

same_eq : (b c : Bool) → same b c ≡ true → b ≡ c
same_eq true true h = refl
same_eq true false h = ground arith
same_eq false true h = ground arith
same_eq false false h = refl

set_table : all_bytes (λ b k j. same (has_bit (set_bit b k) j) (k == j || has_bit b j)) ≡ true
unfolding all_bytes has_bit set_bit
set_table = refl

clear_table :
    all_bytes (λ b k j. same (has_bit (clear_bit b k) j) (not (k == j) && has_bit b j)) ≡ true
unfolding all_bytes has_bit clear_bit
clear_table = refl

range_table : all_bytes (λ b k j. ltb (set_bit b k) 256 && ltb (clear_bit b k) 256) ≡ true
unfolding all_bytes set_bit clear_bit
range_table = refl

zero_table : all_bytes (λ b k j. same (b == 0) (all_below 8 (λ i. not (has_bit b i)))) ≡ true
unfolding all_bytes has_bit
zero_table = refl

-- Setting a bit makes it set and leaves the others.
pub has_bit-set_bit :
    (b k j : ℕ) → b < 256 → k < 8 → j < 8 → has_bit (set_bit b k) j ≡ (k == j || has_bit b j)
has_bit-set_bit b k j hb hk hj = same_eq _ _ (all_bytes_sound _ b k j set_table hb hk hj)

-- Clearing a bit makes it clear and leaves the others.
pub has_bit-clear_bit :
    (b k j : ℕ)
    → b < 256
    → k < 8
    → j < 8
    → has_bit (clear_bit b k) j ≡ (not (k == j) && has_bit b j)
has_bit-clear_bit b k j hb hk hj = same_eq _ _ (all_bytes_sound _ b k j clear_table hb hk hj)

pub set_bit-lt : (b k : ℕ) → b < 256 → k < 8 → set_bit b k < 256
set_bit-lt b k hb hk = ground (arith, all_bytes_sound _ b k 0 range_table hb hk (omega arith))

pub clear_bit-lt : (b k : ℕ) → b < 256 → k < 8 → clear_bit b k < 256
clear_bit-lt b k hb hk = ground (arith, all_bytes_sound _ b k 0 range_table hb hk (omega arith))

-- A byte is zero just when none of its bits is set.
pub has_bit-zero : (j : ℕ) → has_bit 0 j ≡ false
unfolding has_bit
has_bit-zero j = let e : bit_and 0 (2 ^ j) ≡ 0 = bit_and-bitwise 0 (2 ^ j) in rw e

all_below_complete : (n : ℕ) (p : ℕ → Bool) → ((x : ℕ) → x < n → p x ≡ true) → all_below n p ≡ true
unfolding all_below
all_below_complete zero p h = refl
all_below_complete (suc n) p h =
    ground (arith, h n, all_below_complete n p (λ x hx. h x (omega arith)))

pub zero_of_has_bit : (b : ℕ) → b < 256 → ((j : ℕ) → j < 8 → has_bit b j ≡ false) → b ≡ 0
zero_of_has_bit b hb h = ground (
  arith,
  same_eq (b == 0) (all_below 8 (λ i. not (has_bit b i)))
      (all_bytes_sound _ b 0 0 zero_table hb (omega arith) (omega arith)),
  all_below_complete 8 (λ i. not (has_bit b i)) (λ x hx. rw (h x hx)),
)
