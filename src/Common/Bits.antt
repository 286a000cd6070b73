-- ===== src/Common/Bits.antt =====
-- Laws of `&`, `|` and `^` at variables: the operation at the lowest digit, and what follows from it
-- by induction on the number of digits.
use Prim.Native.Nat.{
  ℕ, zero, suc, ◌+◌, ◌-◌, ◌*◌, ◌/◌, ◌%◌, ◌^◌, ◌≤◌, ◌<◌, min, max, bit_and, bit_or, bit_xor, digits,
  bitwise, differ, bit_and-bitwise, bit_or-bitwise, bit_xor-bitwise,
}
use mathlib.Core.Path.{◌≡◌, refl, ap, ◌∙◌}
use native.Mathlib.Nat.{le_refl, two-pow-succ}
use native.Mathlib.Omega.{arith}

-- More fuel than digits makes no difference.
module _ (z : ℕ → ℕ) (f : ℕ → ℕ → ℕ) where
  digits_enough_step : (n m a b : ℕ) → a ≤ n → a ≤ m → digits z f n a b ≡ digits z f m a b
  digits_enough_step zero zero zero b p q = refl
  digits_enough_step zero zero (suc a) b p q = absurd (omega arith)
  digits_enough_step zero (suc m) zero b p q = refl
  digits_enough_step zero (suc m) (suc a) b p q = absurd (omega arith)
  digits_enough_step (suc n) zero zero b p q = refl
  digits_enough_step (suc n) zero (suc a) b p q = absurd (omega arith)
  digits_enough_step (suc n) (suc m) zero b p q = refl
  digits_enough_step (suc n) (suc m) (suc a) b p q =
      ap (λ r. r * 2 + f (suc a % 2) (b % 2))
        (digits_enough_step n m (suc a / 2) (b / 2) (omega arith) (omega arith))

  lowest :
      (a b : ℕ)
      → bitwise z f (suc a) b ≡ bitwise z f (suc a / 2) (b / 2) * 2 + f (suc a % 2) (b % 2)
  lowest a b =
      ap (λ r. r * 2 + f (suc a % 2) (b % 2))
        (digits_enough_step a (suc a / 2) (suc a / 2) (b / 2) (omega arith) (le_refl _))

pub and_lowest : (a b : ℕ) → bit_and a b ≡ bit_and (a / 2) (b / 2) * 2 + min (a % 2) (b % 2)
and_lowest zero b = simp bit_and-bitwise (omega arith)
and_lowest (suc a) b = simp bit_and-bitwise (lowest (λ y. 0) min a b)

pub or_lowest : (a b : ℕ) → bit_or a b ≡ bit_or (a / 2) (b / 2) * 2 + max (a % 2) (b % 2)
or_lowest zero b = simp bit_or-bitwise (omega arith)
or_lowest (suc a) b = simp bit_or-bitwise (lowest (λ y. y) max a b)

differ_digits : (x y : ℕ) → x < 2 → y < 2 → differ x y ≡ (x + y) % 2
differ_digits zero y p q = omega arith
differ_digits (suc zero) zero p q = omega arith
differ_digits (suc zero) (suc zero) p q = omega arith
differ_digits (suc zero) (suc (suc y)) p q = absurd (omega arith)
differ_digits (suc (suc x)) y p q = absurd (omega arith)

differ_lem : (a b : ℕ) → differ (a % 2) (b % 2) ≡ (a + b) % 2
differ_lem a b = omega (arith, differ_digits (a % 2) (b % 2) (omega arith) (omega arith))

pub xor_lowest : (a b : ℕ) → bit_xor a b ≡ bit_xor (a / 2) (b / 2) * 2 + (a + b) % 2
xor_lowest zero b = simp bit_xor-bitwise (omega arith)
xor_lowest (suc a) b =
    simp bit_xor-bitwise (lowest (λ y. y) differ a b)
    ∙ ap (λ d. bit_xor (suc a / 2) (b / 2) * 2 + d) (differ_lem (suc a) b)

-- A word of `k` digits stays one.
pub xor-lt : (k a b : ℕ) → a < 2 ^ k → b < 2 ^ k → bit_xor a b < 2 ^ k
xor-lt zero zero zero p q = omega arith
xor-lt zero zero (suc b) p q = absurd (omega arith)
xor-lt zero (suc a) b p q = absurd (omega arith)
xor-lt (suc k) a b p q = omega (
  arith,
  two-pow-succ k,
  xor_lowest a b,
  xor-lt k (a / 2) (b / 2) (omega (arith, two-pow-succ k)) (omega (arith, two-pow-succ k)),
)

-- The same number twice cancels.
xor_cancel_below : (n a b : ℕ) → a ≤ n → b ≤ n → bit_xor (bit_xor a b) b ≡ a
xor_cancel_below zero zero zero p q = refl
xor_cancel_below zero (suc a) b p q = absurd (omega arith)
xor_cancel_below zero zero (suc b) p q = absurd (omega arith)
xor_cancel_below (suc n) a b p q = omega (
  arith,
  xor_lowest (bit_xor a b) b,
  xor_lowest a b,
  ap (λ (r : ℕ). bit_xor r (b / 2)) half,
  xor_cancel_below n (a / 2) (b / 2) (omega arith) (omega arith),
)
  where
    half : bit_xor a b / 2 ≡ bit_xor (a / 2) (b / 2)
    half = omega (arith, xor_lowest a b)

pub xor_cancel : (a b : ℕ) → bit_xor (bit_xor a b) b ≡ a
xor_cancel a b = xor_cancel_below (a + b) a b (omega arith) (omega arith)

xor_cancel_left_below : (n a b : ℕ) → a ≤ n → b ≤ n → bit_xor a (bit_xor a b) ≡ b
xor_cancel_left_below zero zero zero p q = refl
xor_cancel_left_below zero (suc a) b p q = absurd (omega arith)
xor_cancel_left_below zero zero (suc b) p q = absurd (omega arith)
xor_cancel_left_below (suc n) a b p q = omega (
  arith,
  xor_lowest a (bit_xor a b),
  xor_lowest a b,
  ap (bit_xor (a / 2)) half,
  xor_cancel_left_below n (a / 2) (b / 2) (omega arith) (omega arith),
)
  where
    half : bit_xor a b / 2 ≡ bit_xor (a / 2) (b / 2)
    half = omega (arith, xor_lowest a b)

pub xor_cancel_left : (a b : ℕ) → bit_xor a (bit_xor a b) ≡ b
xor_cancel_left a b = xor_cancel_left_below (a + b) a b (omega arith) (omega arith)

-- `x & 2^k` tests the highest digit of a word of `k + 1` digits.
pub and_high_zero : (k a : ℕ) → a < 2 ^ k → bit_and a (2 ^ k) ≡ 0
and_high_zero zero zero h = refl
and_high_zero zero (suc a) h = absurd (omega arith)
and_high_zero (suc k) a h = omega (
  arith,
  two-pow-succ k,
  and_lowest a (2 ^ suc k),
  ap (bit_and (a / 2)) (halved k),
  and_high_zero k (a / 2) (omega (arith, two-pow-succ k)),
)
  where
    halved : (k : ℕ) → 2 ^ suc k / 2 ≡ 2 ^ k
    halved k = omega (arith, two-pow-succ k)

pub and_high_one : (k a : ℕ) → 2 ^ k ≤ a → a < 2 ^ suc k → bit_and a (2 ^ k) ≡ 2 ^ k
and_high_one zero zero p q = absurd (omega arith)
and_high_one zero (suc zero) p q = refl
and_high_one zero (suc (suc a)) p q = absurd (omega arith)
and_high_one (suc k) a p q = omega (
  arith,
  two-pow-succ k,
  and_lowest a (2 ^ suc k),
  ap (bit_and (a / 2)) (halved k),
  and_high_one k (a / 2) (omega (arith, two-pow-succ k))
      (omega (arith, two-pow-succ k, two-pow-succ (suc k))),
)
  where
    halved : (k : ℕ) → 2 ^ suc k / 2 ≡ 2 ^ k
    halved k = omega (arith, two-pow-succ k)

and_zero_below : (n a : ℕ) → a ≤ n → bit_and a 0 ≡ 0
and_zero_below n zero h = refl
and_zero_below zero (suc a) h = absurd (omega arith)
and_zero_below (suc n) (suc a) h =
    omega (arith, and_lowest (suc a) 0, and_zero_below n (suc a / 2) (omega arith))

or_zero_below : (n a : ℕ) → a ≤ n → bit_or a 0 ≡ a
or_zero_below n zero h = refl
or_zero_below zero (suc a) h = absurd (omega arith)
or_zero_below (suc n) (suc a) h =
    omega (arith, or_lowest (suc a) 0, or_zero_below n (suc a / 2) (omega arith))

-- `&` with `k` ones keeps the low `k` digits.
pub and_mask : (k hi lo : ℕ) → lo < 2 ^ k → bit_and (hi * 2 ^ k + lo) (2 ^ k - 1) ≡ lo
and_mask zero hi lo h = omega (arith, and_zero_below (hi * 1 + lo) (hi * 1 + lo) (le_refl _))
and_mask (suc k) hi lo h = omega (
  arith,
  and_lowest (hi * 2 ^ suc k + lo) (2 ^ suc k - 1),
  ap (λ (r : ℕ). hi * r) (two-pow-succ k),
  two-pow-succ k,
  ap (λ (r : ℕ). bit_and r ((2 ^ suc k - 1) / 2)) upper,
  ap (bit_and (hi * 2 ^ k + lo / 2)) mask,
  and_mask k hi (lo / 2) (omega (arith, two-pow-succ k)),
  pow_pos k,
)
  where
    pow_pos : (j : ℕ) → 0 < 2 ^ j
    pow_pos zero = omega arith
    pow_pos (suc j) = omega (arith, two-pow-succ j, pow_pos j)

    upper : (hi * 2 ^ suc k + lo) / 2 ≡ hi * 2 ^ k + lo / 2
    upper = omega (arith, ap (λ (r : ℕ). hi * r) (two-pow-succ k))

    mask : (2 ^ suc k - 1) / 2 ≡ 2 ^ k - 1
    mask = omega (arith, two-pow-succ k, pow_pos k)

-- `|` of a shifted word and a word that lies below it is their sum.
pub or_disjoint : (k a b : ℕ) → b < 2 ^ k → bit_or (a * 2 ^ k) b ≡ a * 2 ^ k + b
or_disjoint zero a zero h = omega (arith, or_zero_below (a * 1) (a * 1) (le_refl _))
or_disjoint zero a (suc b) h = absurd (omega arith)
or_disjoint (suc k) a b h = omega (
  arith,
  or_lowest (a * 2 ^ suc k) b,
  ap (λ (r : ℕ). a * r) (two-pow-succ k),
  two-pow-succ k,
  ap (λ (r : ℕ). bit_or r (b / 2)) upper,
  or_disjoint k a (b / 2) (omega (arith, two-pow-succ k)),
)
  where
    upper : a * 2 ^ suc k / 2 ≡ a * 2 ^ k
    upper = omega (arith, ap (λ (r : ℕ). a * r) (two-pow-succ k))
