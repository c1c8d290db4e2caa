-- ===== src/Base/Decimal.antt =====
-- The package strconv at base 10: Itoa, and ParseInt of 32 bits.
pub mod Laws
use Prim.Native.Nat.{ℕ, zero, suc, ◌+◌, ◌-◌, ◌*◌, ◌/◌, ◌%◌, ◌^◌, ◌<◌, compare, Ordering}
use Prim.Native.Char.{Char, code}
use Prim.Native.String.{String, [], ◌∷◌}
use mathlib.Core.Bool.{Bool, true, false, ◌&&◌}
use mathlib.Core.Option.{Option, none, some}
use cert_broker.Base.Defs.{if◌then◌else◌}
use cert_broker.Base.Int.{ℤ, pos, negsuc, ltb}

-- The digit of a number below 10.
unfoldable pub digit : ℕ → Char
digit zero = "0"
digit (suc zero) = "1"
digit (suc (suc zero)) = "2"
digit (suc (suc (suc zero))) = "3"
digit (suc (suc (suc (suc zero)))) = "4"
digit (suc (suc (suc (suc (suc zero))))) = "5"
digit (suc (suc (suc (suc (suc (suc zero)))))) = "6"
digit (suc (suc (suc (suc (suc (suc (suc zero))))))) = "7"
digit (suc (suc (suc (suc (suc (suc (suc (suc zero)))))))) = "8"
digit _ = "9"

-- The digits of n before the text; the fuel must be above n.
unfoldable pub digits_before : ℕ → ℕ → String → String
unfolding digit
digits_before zero n s = s
digits_before (suc fuel) n s =
    let more = digits_before fuel (n / 10) (digit (n % 10) ∷ s) in
    if ltb n 10 then digit n ∷ s else more

unfoldable pub itoa : ℤ → String
unfolding digits_before
itoa (pos n) = digits_before (suc n) n ""
itoa (negsuc n) = "-" ∷ digits_before (suc (suc n)) (suc n) ""

abbrev pub leb : ℕ → ℕ → Bool
leb a b = elim (compare a b) [ Ordering.gt ↦ false | _ ↦ true ]

unfoldable pub digit_value : Char → Option ℕ
digit_value c = if leb b'0' (code c) && leb (code c) b'9' then some (code c - b'0') else none

unfoldable pub read_digits : ℕ → String → Option ℕ
unfolding digit_value
read_digits acc [] = some acc
read_digits acc (c ∷ s) = elim (digit_value c) [
  | none ↦ none
  | some d ↦ read_digits (acc * 10 + d) s
]

abbrev pub magnitude : String → Option ℕ
magnitude [] = none
magnitude (c ∷ s) = read_digits 0 (c ∷ s)

abbrev pub in_positive_range : Option ℕ → Option ℤ
in_positive_range none = none
in_positive_range (some n) = if ltb n (2 ^ 31) then some (pos n) else none

abbrev pub in_negative_range : Option ℕ → Option ℤ
in_negative_range none = none
in_negative_range (some zero) = some (pos 0)
in_negative_range (some (suc n)) = if ltb n (2 ^ 31) then some (negsuc n) else none

abbrev same_char : Char → ℕ → Bool
same_char c n = elim (compare (code c) n) [ Ordering.eq ↦ true | _ ↦ false ]

-- `none` is any error, of syntax or of range.
unfoldable pub parse_int_32 : String → Option ℤ
unfolding read_digits
parse_int_32 [] = none
parse_int_32 (c ∷ s) =
    if same_char c b'+'
    then in_positive_range (magnitude s)
    else if same_char c b'-'
    then in_negative_range (magnitude s)
    else in_positive_range (magnitude (c ∷ s))
