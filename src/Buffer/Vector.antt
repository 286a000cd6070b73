-- ===== src/Buffer/Vector.antt =====
-- What src/codec/buffer.h does with its `std::vector<char>`: ranges, `resize` and `std::copy`.
use hc_tcp_im_server.Common.{
  ℕ, ◌+◌, ◌-◌, ◌≤◌, ◌≡◌, refl, ap, ◌∙◌, List, ◌++◌, arith, length, take, drop, replicate,
  length-append, length-take, length-drop, length-replicate, take-append_le, drop-append_le,
  take-append, drop-append, drop-drop, take-all, take-take_le, drop-take, take-add,
}

-- `n` elements from index `i` on.
abbrev pub slice {ℓ} : {A : Type ℓ} → ℕ → ℕ → List A → List A
slice i n xs = take n (drop i xs)

-- `resize(n)`: cut, or filled up with zeros.
unfoldable pub resize : List ℕ → ℕ → List ℕ
resize xs n = take n xs ++ replicate (n - length xs) 0

-- The elements from index `i` on are overwritten by `ys`, inside the vector.
unfoldable pub write_at : List ℕ → ℕ → List ℕ → List ℕ
write_at xs i ys = take i xs ++ (ys ++ drop (i + length ys) xs)

pub length-resize : (xs : List ℕ) (n : ℕ) → length (resize xs n) ≡ n
unfolding resize
length-resize xs n = omega (
  arith,
  length-append (take n xs) (replicate (n - length xs) 0),
  length-take n xs,
  length-replicate {A = ℕ} (n - length xs) 0,
)

pub length-write_at :
    (xs : List ℕ) (i : ℕ) (ys : List ℕ)
    → i + length ys ≤ length xs
    → length (write_at xs i ys) ≡ length xs
unfolding write_at
length-write_at xs i ys h = omega (
  arith,
  length-append (take i xs) (ys ++ drop (i + length ys) xs),
  length-append ys (drop (i + length ys) xs),
  length-take i xs,
  length-drop (i + length ys) xs,
)

pub length-slice :
    {A : Type 0} (i n : ℕ) (xs : List A) → i + n ≤ length xs → length (slice i n xs) ≡ n
length-slice i n xs h = omega (arith, length-take n (drop i xs), length-drop i xs)

-- A range inside the vector survives growth.
pub slice-resize :
    (i n m : ℕ) (xs : List ℕ)
    → i + n ≤ length xs
    → length xs ≤ m
    → slice i n (resize xs m) ≡ slice i n xs
unfolding resize
slice-resize i n m xs h k =
    rw (take-all m xs k, drop-append_le i xs (replicate (m - length xs) 0) (omega arith))
      (take-append_le n (drop i xs) _ (omega (arith, length-drop i xs)))

-- What was written is read back.
pub slice-write_at_self :
    (xs : List ℕ) (i : ℕ) (ys : List ℕ)
    → i ≤ length xs
    → slice i (length ys) (write_at xs i ys) ≡ ys
unfolding write_at
slice-write_at_self xs i ys h =
    rw (drop-append i (take i xs) _ (omega (arith, length-take i xs)))
      (take-append (length ys) ys _ refl)

-- A range is its first part and the rest.
pub slice-add :
    {A : Type 0} (i m n : ℕ) (xs : List A) → slice i (m + n) xs ≡ slice i m xs ++ slice (i + m) n xs
slice-add i m n xs =
    take-add m n (drop i xs) ∙ ap (λ ys. take m (drop i xs) ++ take n ys) (drop-drop m i xs)

-- A write does not reach the range before it.
pub slice-write_at_before :
    (xs : List ℕ) (i n j : ℕ) (ys : List ℕ)
    → i + n ≤ j
    → j ≤ length xs
    → slice i n (write_at xs j ys) ≡ slice i n xs
unfolding write_at
slice-write_at_before xs i n j ys h k =
    rw
      (drop-append_le i (take j xs) (ys ++ drop (j + length ys) xs)
        (omega (arith, length-take j xs)))
      (take-append_le n (drop i (take j xs)) _
          (omega (arith, length-drop i (take j xs), length-take j xs))
        ∙ (ap (take n) (drop-take i j xs) ∙ take-take_le n (j - i) (drop i xs) (omega arith)))
