-- ===== src/Base/Decimal/Laws.antt =====
-- Base/Decimal.antt: reading back what was printed.
use Prim.Native.Nat.{ℕ, zero, suc, ◌+◌, ◌*◌, ◌/◌, ◌%◌, ◌^◌, ◌<◌}
use Prim.Native.Char.{code}
use Prim.Native.String.{String, ◌∷◌}
use mathlib.Core.Path.{sym, ◌≡◌, refl, ◌∙◌, ap}
use mathlib.Core.Logic.{inl, inr}
use mathlib.Core.Option.{some}
use native.Mathlib.Omega.{arith}
use cert_broker.Base.Defs.{Bool-cases}
use cert_broker.Base.Int.{pos, negsuc, ltb}
use cert_broker.Base.Decimal.{
  digit, digits_before, itoa, digit_value, read_digits, parse_int_32, magnitude, in_positive_range,
}

digit_value-digit : (n : ℕ) → n < 10 → digit_value (digit n) ≡ some n
unfolding digit_value digit
digit_value-digit zero h = refl
digit_value-digit (suc zero) h = refl
digit_value-digit (suc (suc zero)) h = refl
digit_value-digit (suc (suc (suc zero))) h = refl
digit_value-digit (suc (suc (suc (suc zero)))) h = refl
digit_value-digit (suc (suc (suc (suc (suc zero))))) h = refl
digit_value-digit (suc (suc (suc (suc (suc (suc zero)))))) h = refl
digit_value-digit (suc (suc (suc (suc (suc (suc (suc zero))))))) h = refl
digit_value-digit (suc (suc (suc (suc (suc (suc (suc (suc zero)))))))) h = refl
digit_value-digit (suc (suc (suc (suc (suc (suc (suc (suc (suc zero))))))))) h = refl
digit_value-digit (suc (suc (suc (suc (suc (suc (suc (suc (suc (suc n)))))))))) h =
    absurd (omega arith)

read_digits-cons :
    (acc n : ℕ) (s : String) → n < 10 → read_digits acc (digit n ∷ s) ≡ read_digits (acc * 10 + n) s
unfolding read_digits
read_digits-cons acc n s h = ground (arith, digit_value-digit n h)

read_digits-digits_before :
    (fuel n : ℕ) (s : String) → n < fuel → read_digits 0 (digits_before fuel n s) ≡ read_digits n s
unfolding digits_before
read_digits-digits_before zero n s h = absurd (omega arith)
read_digits-digits_before (suc fuel) n s h = elim (Bool-cases (ltb n 10)) [
  | inl e ↦ rw e (read_digits-cons 0 n s (ground arith) ∙ ap (λ m. read_digits m s) (omega arith))
  | inr e ↦ rw e (
      read_digits-digits_before fuel (n / 10) (digit (n % 10) ∷ s) (ground arith)
      ∙ read_digits-cons (n / 10) (n % 10) s (omega arith)
      ∙ ap (λ m. read_digits m s) (omega arith))
]

code-digit : (n : ℕ) → n < 10 → code (digit n) ≡ 48 + n
unfolding digit
code-digit zero h = refl
code-digit (suc zero) h = refl
code-digit (suc (suc zero)) h = refl
code-digit (suc (suc (suc zero))) h = refl
code-digit (suc (suc (suc (suc zero)))) h = refl
code-digit (suc (suc (suc (suc (suc zero))))) h = refl
code-digit (suc (suc (suc (suc (suc (suc zero)))))) h = refl
code-digit (suc (suc (suc (suc (suc (suc (suc zero))))))) h = refl
code-digit (suc (suc (suc (suc (suc (suc (suc (suc zero)))))))) h = refl
code-digit (suc (suc (suc (suc (suc (suc (suc (suc (suc zero))))))))) h = refl
code-digit (suc (suc (suc (suc (suc (suc (suc (suc (suc (suc n)))))))))) h = absurd (omega arith)

-- A printed number begins with a digit.
digits_before-cons :
    (fuel n : ℕ) (s : String)
    → n < fuel
    → (d : ℕ) × (rest : String) × (d < 10) × (digits_before fuel n s ≡ digit d ∷ rest)
unfolding digits_before
digits_before-cons zero n s h = absurd (omega arith)
digits_before-cons (suc fuel) n s h = elim (Bool-cases (ltb n 10)) [
  | inl e ↦ (n, s, ground (arith, e), rw e)
  | inr e ↦
      let (d, rest, b, f) = digits_before-cons fuel (n / 10) (digit (n % 10) ∷ s) (ground arith) in
      (d, rest, b, rw e f)
]

parse_int_32-digit :
    (d : ℕ) (rest : String)
    → d < 10
    → parse_int_32 (digit d ∷ rest) ≡ in_positive_range (read_digits 0 (digit d ∷ rest))
unfolding parse_int_32
parse_int_32-digit d rest h = ground (arith, code-digit d h)

magnitude-digits : (fuel n : ℕ) → n < fuel → magnitude (digits_before fuel n "") ≡ some n
magnitude-digits fuel n h =
    let (d, rest, b, f) = digits_before-cons fuel n "" h in
    rw f (rw f at (read_digits-digits_before fuel n "" h ∙ nil_lem n))
  where
    nil_lem : (n : ℕ) → read_digits n "" ≡ some n
    nil_lem n = unfold read_digits in refl

-- Of a number of 32 bits, what Itoa prints is read back by ParseInt.
pub parse_int_32-itoa_pos : (n : ℕ) → n < 2 ^ 31 → parse_int_32 (itoa (pos n)) ≡ some (pos n)
unfolding itoa
parse_int_32-itoa_pos n h =
    let (d, rest, b, f) = digits_before-cons (suc n) n "" (omega arith) in
    rw f (
      parse_int_32-digit d rest b
      ∙ ap in_positive_range (rw f at (magnitude-digits (suc n) n (omega arith)))
      ∙ ground arith)

pub parse_int_32-itoa_negsuc :
    (n : ℕ) → n < 2 ^ 31 → parse_int_32 (itoa (negsuc n)) ≡ some (negsuc n)
unfolding itoa parse_int_32
parse_int_32-itoa_negsuc n h =
    rw (magnitude-digits (suc (suc n)) (suc n) (omega arith)) (ground arith)

-- Different natural numbers are printed differently.
pub itoa_injective : (m n : ℕ) → itoa (pos m) ≡ itoa (pos n) → m ≡ n
unfolding itoa
itoa_injective m n e = some-inj (
    sym (magnitude-digits (suc m) m (omega arith))
    ∙ ap magnitude e
    ∙ magnitude-digits (suc n) n (omega arith))
  where
    some-inj : some m ≡ some n → m ≡ n
    some-inj h = cc h
