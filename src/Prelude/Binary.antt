-- ===== src/Prelude/Binary.antt =====
-- Python's `|`, `>>`, `& (2 ** k - 1)` on integers, which have two's complement digits.
use Prim.Native.Nat.{
  ℕ, zero, suc, ◌+◌, ◌-◌, ◌*◌, ◌/◌, ◌%◌, ◌^◌, ◌≤◌, ◌<◌, min, max, bit_and, bit_or, digits, bitwise,
  bit_and-bitwise, bit_or-bitwise,
}
use mathlib.Core.Path.{◌≡◌, refl, sym, ap, ◌∙◌}
use native.Mathlib.Nat.{mod-lt, div-add-mod'}
use native.Mathlib.Omega.{arith}
use walflux_postgres_increme.Prelude.Int.{ℤ, pos, negsuc, ◌*ℕ◌, int_laws}

-- `negsuc n` is the complement of `n`.
unfoldable pub or_ℤ : ℤ → ℤ → ℤ
or_ℤ (pos a) (pos b) = pos (bit_or a b)
or_ℤ (pos a) (negsuc b) = negsuc (b - bit_and b a)
or_ℤ (negsuc a) (pos b) = negsuc (a - bit_and a b)
or_ℤ (negsuc a) (negsuc b) = negsuc (bit_and a b)

-- `z >> k`, which rounds down
unfoldable pub shift_right : ℤ → ℕ → ℤ
shift_right (pos n) k = pos (n / 2 ^ k)
shift_right (negsuc n) k = negsuc (n / 2 ^ k)

-- `z & (2 ** k - 1)`
unfoldable pub low_bits : ℤ → ℕ → ℕ
low_bits (pos n) k = n % 2 ^ k
low_bits (negsuc n) k = 2 ^ k - 1 - n % 2 ^ k

-- An operation on binary digits, and its law for the lowest one.
module _ (z : ℕ → ℕ) (f : ℕ → ℕ → ℕ) where
  spare_count : (k m a b : ℕ) → a ≤ k → a ≤ m → digits z f k a b ≡ digits z f m a b
  spare_count zero zero zero b p q = refl
  spare_count zero (suc m) zero b p q = refl
  spare_count (suc k) zero zero b p q = refl
  spare_count (suc k) (suc m) zero b p q = refl
  spare_count zero m (suc a) b p q = absurd (omega arith)
  spare_count (suc k) zero (suc a) b p q = absurd (omega arith)
  spare_count (suc k) (suc m) (suc a) b p q =
      ap (λ x. x * 2 + f (suc a % 2) (b % 2))
        (spare_count k m (suc a / 2) (b / 2) (omega arith) (omega arith))

  bitwise_step :
      (a b : ℕ)
      → ((c : ℕ) → z c ≡ z (c / 2) * 2 + f 0 (c % 2))
      → bitwise z f a b ≡ bitwise z f (a / 2) (b / 2) * 2 + f (a % 2) (b % 2)
  bitwise_step zero b law = law b
  bitwise_step (suc a) b law =
      ap (λ x. x * 2 + f (suc a % 2) (b % 2))
        (spare_count a (suc a / 2) (suc a / 2) (b / 2) (omega arith) (omega arith))

bit_or_step : (a b : ℕ) → bit_or a b ≡ bit_or (a / 2) (b / 2) * 2 + max (a % 2) (b % 2)
bit_or_step a b =
    bit_or-bitwise a b
    ∙ bitwise_step (λ c. c) max a b (λ c. omega arith)
    ∙ ap (λ x. x * 2 + max (a % 2) (b % 2)) (sym (bit_or-bitwise (a / 2) (b / 2)))

bit_and_step : (a b : ℕ) → bit_and a b ≡ bit_and (a / 2) (b / 2) * 2 + min (a % 2) (b % 2)
bit_and_step a b =
    bit_and-bitwise a b
    ∙ bitwise_step (λ c. zero) min a b (λ c. omega arith)
    ∙ ap (λ x. x * 2 + min (a % 2) (b % 2)) (sym (bit_and-bitwise (a / 2) (b / 2)))

bit_and-zero : (n a : ℕ) → a ≤ n → bit_and a 0 ≡ 0
bit_and-zero zero zero h = refl
bit_and-zero zero (suc a) h = absurd (omega arith)
bit_and-zero (suc n) a h = omega (arith, bit_and_step a 0, bit_and-zero n (a / 2) (omega arith))

bit_or-zero : (n a : ℕ) → a ≤ n → bit_or a 0 ≡ a
bit_or-zero zero zero h = refl
bit_or-zero zero (suc a) h = absurd (omega arith)
bit_or-zero (suc n) a h = omega (arith, bit_or_step a 0, bit_or-zero n (a / 2) (omega arith))

succ_product : (h m : ℕ) → suc h * m ≡ h * m + m
succ_product h m = grind arith

half_even : (n : ℕ) → n * 2 / 2 ≡ n
half_even n = omega arith

half_odd : (n : ℕ) → (n * 2 + 1) / 2 ≡ n
half_odd n = omega arith

doubled : (k h : ℕ) → h * 2 ^ suc k ≡ h * 2 ^ k * 2
doubled k h = grind arith

-- A number whose last `k` binary digits are zero.
pub bit_or_low : (k h l : ℕ) → l < 2 ^ k → bit_or (h * 2 ^ k) l ≡ h * 2 ^ k + l
bit_or_low zero h l small =
    let none_left : l ≡ 0 = omega arith in
    rw none_left (omega (arith, bit_or-zero (h * 1) (h * 1) (omega arith)))
bit_or_low (suc k) h l small = rw (doubled k h) (
    omega (
      arith,
      bit_or_step (h * 2 ^ k * 2) l,
      bit_or_low k h (l / 2) (omega arith),
      ap (λ t. bit_or t (l / 2)) (half_even (h * 2 ^ k)),
    ))

power_positive : (k : ℕ) → 0 < 2 ^ k
power_positive zero = omega arith
power_positive (suc k) = omega (arith, power_positive k)

-- A number whose last `k` binary digits are one.
pub bit_and_ones : (k h l : ℕ) → l < 2 ^ k → bit_and (h * 2 ^ k + (2 ^ k - 1)) l ≡ l
bit_and_ones zero h l small =
    let none_left : l ≡ 0 = omega arith in
    rw none_left (bit_and-zero (h * 1 + 0) (h * 1 + 0) (omega arith))
bit_and_ones (suc k) h l small =
    let odd : h * 2 ^ suc k + (2 ^ suc k - 1) ≡ (h * 2 ^ k + (2 ^ k - 1)) * 2 + 1 =
      omega (arith, doubled k h, power_positive k) in
    rw odd (
      omega (
        arith,
        bit_and_step ((h * 2 ^ k + (2 ^ k - 1)) * 2 + 1) l,
        bit_and_ones k h (l / 2) (omega arith),
        ap (λ t. bit_and t (l / 2)) (half_odd (h * 2 ^ k + (2 ^ k - 1))),
      ))

pos-*ℕ : (h m : ℕ) → pos h *ℕ m ≡ pos (h * m)
pos-*ℕ h m = omega int_laws

negsuc-*ℕ : (h m : ℕ) → 0 < m → negsuc h *ℕ m ≡ negsuc (h * m + (m - 1))
negsuc-*ℕ h m p = omega (int_laws, succ_product h m)

-- Two parts put together, and what they are taken from.
pub or_ℤ-parts : (z : ℤ) (k : ℕ) → or_ℤ (shift_right z k *ℕ 2 ^ k) (pos (low_bits z k)) ≡ z
unfolding or_ℤ shift_right low_bits
or_ℤ-parts (pos n) k =
    rw
      (
        pos-*ℕ (n / 2 ^ k) (2 ^ k),
        bit_or_low k (n / 2 ^ k) (n % 2 ^ k) (mod-lt n (power_positive k)),
      )
      (ap (λ t. pos t) (div-add-mod' n (2 ^ k)))
or_ℤ-parts (negsuc n) k =
    let rest = 2 ^ k - 1 - n % 2 ^ k in
    rw
      (
        negsuc-*ℕ (n / 2 ^ k) (2 ^ k) (power_positive k),
        bit_and_ones k (n / 2 ^ k) rest (omega (arith, power_positive k)),
      )
      (ap (λ t. negsuc t) (omega (arith, div-add-mod' n (2 ^ k), mod-lt n (power_positive k))))
