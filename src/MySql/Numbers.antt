-- ===== src/MySql/Numbers.antt =====
-- src/storage/: a number that `<<` writes into a statement is read back by `std::stoull`.
use Prim.Native.Char.{Char, code as char_code}
use Prim.Native.String.{[] as end, ◌∷◌ as char_and}
use hc_tcp_im_server.Common.{
  ℕ, zero, suc, ◌+◌, ◌*◌, ◌/◌, ◌%◌, ◌^◌, ◌<◌, ◌≡◌, refl, Bool, true, false, some, String, arith,
  str_eq, str_eq_iff, ltb, lt→ltb, ltb→lt, Bool-cases, inl, inr, ◌∙◌, ap,
}
use hc_tcp_im_server.MySql.Text.{digit, digits_before, decimal, is_digit, read_digits, sto}

code-digit : (d : ℕ) → d < 10 → char_code (digit d) ≡ 48 + d
unfolding digit
code-digit zero h = refl
code-digit (suc zero) h = refl
code-digit (suc (suc zero)) h = refl
code-digit (suc (suc (suc zero))) h = refl
code-digit (suc (suc (suc (suc zero)))) h = refl
code-digit (suc (suc (suc (suc (suc zero))))) h = refl
code-digit (suc (suc (suc (suc (suc (suc zero)))))) h = refl
code-digit (suc (suc (suc (suc (suc (suc (suc zero))))))) h = refl
code-digit (suc (suc (suc (suc (suc (suc (suc (suc zero)))))))) h = refl
code-digit (suc (suc (suc (suc (suc (suc (suc (suc (suc zero))))))))) h = refl
code-digit (suc (suc (suc (suc (suc (suc (suc (suc (suc (suc d)))))))))) h = absurd (omega arith)

is_digit-digit : (d : ℕ) → d < 10 → is_digit (digit d) ≡ true
unfolding is_digit
is_digit-digit d h = rw (code-digit d h) (ground arith)

-- Reading a digit in front of a text.
read_digit :
    (n d : ℕ) (s : String)
    → d < 10
    → read_digits n (char_and (digit d) s) ≡ read_digits (10 * n + d) s
unfolding read_digits
read_digit n d s h =
    rw (is_digit-digit d h, code-digit d h) (ap (λ x. read_digits x s) (omega arith))

-- Writing the digits of n and reading them from 0 is reading on from n.
read_digits-digits_before :
    (fuel n : ℕ) (s : String)
    → n < 10 ^ fuel
    → read_digits 0 (digits_before fuel n s) ≡ read_digits n s
unfolding digits_before
read_digits-digits_before zero n s h = ap (λ x. read_digits x s) (omega arith)
read_digits-digits_before (suc fuel) n s h = elim (Bool-cases (ltb n 10)) [
  | inl e ↦ rw e (read_digit 0 n s (ltb→lt n 10 e) ∙ ap (λ x. read_digits x s) (omega arith))
  | inr e ↦ rw e (
      read_digits-digits_before fuel (n / 10) (char_and (digit (n % 10)) s) (omega arith)
      ∙ (read_digit (n / 10) (n % 10) s (omega arith) ∙ ap (λ x. read_digits x s) (omega arith)))
]

-- What is written begins with a digit.
first_digit :
    (fuel n : ℕ) (s : String)
    → (d : ℕ) × (t : String) × (d < 10) × (digits_before (suc fuel) n s ≡ char_and (digit d) t)
unfolding digits_before
first_digit zero n s = elim (Bool-cases (ltb n 10)) [
  | inl e ↦ (n, s, ltb→lt n 10 e, rw e refl)
  | inr e ↦ (n % 10, s, omega arith, rw e refl)
]
first_digit (suc fuel) n s = elim (Bool-cases (ltb n 10)) [
  | inl e ↦ (n, s, ltb→lt n 10 e, rw e refl)
  | inr e ↦
      let (d, t, l, q) = first_digit fuel (n / 10) (char_and (digit (n % 10)) s) in
      (d, t, l, rw e q)
]

sto-digit :
    (bound d : ℕ) (t : String)
    → d < 10
    → read_digits 0 (char_and (digit d) t) < bound
    → sto bound (char_and (digit d) t) ≡ some (read_digits 0 (char_and (digit d) t))
unfolding sto
sto-digit bound d t h l =
    rw (is_digit-digit d h, lt→ltb (read_digits 0 (char_and (digit d) t)) bound l) refl

read_digits_end : (n : ℕ) → read_digits n "" ≡ n
unfolding read_digits
read_digits_end n = refl

pub sto-decimal : (bound n : ℕ) → n < bound → n < 10 ^ 20 → sto bound (decimal n) ≡ some n
unfolding decimal
sto-decimal bound n h k =
    let (d, t, l, e) = first_digit 19 n "" in
    let same : read_digits 0 (char_and (digit d) t) ≡ n =
      rw (← e) (read_digits-digits_before 20 n "" k ∙ read_digits_end n) in
    rw e (sto-digit bound d t l (rw same h) ∙ ap some same)

is_filled : String → Bool
is_filled end = false
is_filled (char_and c s) = true

char_filled : (c : Char) (s : String) → str_eq (char_and c s) "" ≡ false
unfolding is_filled
char_filled c s = elim (Bool-cases (str_eq (char_and c s) "")) [
  | inl e ↦ ground (arith, ap is_filled ((str_eq_iff (char_and c s) "").0 e))
  | inr e ↦ e
]

-- A number that is written is not an empty text.
pub decimal_filled : (n : ℕ) → str_eq (decimal n) "" ≡ false
unfolding decimal
decimal_filled n = let (d, t, l, e) = first_digit 19 n "" in rw e (char_filled (digit d) t)
