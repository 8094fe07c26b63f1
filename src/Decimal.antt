-- ===== src/Decimal.antt =====
-- strconv.Itoa and strconv.Atoi for the 64-bit int, as the failure counters and the columns of the
-- replication status use them.
pub mod RoundTrip
pub mod Bounds
use Prim.Native.Char.{Char, code}
use Prim.Native.String
use mathlib.Core.Logic.{dite}
use mathlib.Core.WellFounded.{Acc, WellFounded}
use native.Mathlib.Decide.{dec_lt}
use mariadb_ha_operator.Base.{
  ℕ, zero, suc, ◌+◌, ◌-◌, ◌*◌, ◌/◌, ◌%◌, ◌^◌, ◌<◌, ◌≡◌, refl, ◌&&◌, String, ℤ, pos, negsuc, Bool,
  true, false, arith, ltb, leb, ◌==◌, nat_eq, if◌then◌else◌,
}

abbrev pub max_int : ℕ
max_int = 2 ^ 63 - 1

abbrev pub max_uint : ℕ
max_uint = 2 ^ 64 - 1

Acc-below : (k n : ℕ) → n < k → Acc ◌<◌ n
Acc-below zero n h = absurd (omega arith)
Acc-below (suc k) n h = Acc.intro n λ m lt. Acc-below k m (omega arith)

lt_wf : WellFounded ◌<◌
unfolding Acc-below
lt_wf = record { apply = λ n. Acc-below (suc n) n (omega arith) }

digit : ℕ → Char
digit (suc zero) = "1"
digit (suc (suc zero)) = "2"
digit (suc (suc (suc zero))) = "3"
digit (suc (suc (suc (suc zero)))) = "4"
digit (suc (suc (suc (suc (suc zero))))) = "5"
digit (suc (suc (suc (suc (suc (suc zero)))))) = "6"
digit (suc (suc (suc (suc (suc (suc (suc zero))))))) = "7"
digit (suc (suc (suc (suc (suc (suc (suc (suc zero)))))))) = "8"
digit (suc (suc (suc (suc (suc (suc (suc (suc (suc zero))))))))) = "9"
digit _ = "0"

-- The digits of `n`, written in front of `out`.
emit : (n : ℕ) → Acc ◌<◌ n → String → String
emit n (Acc.intro _ smaller) out =
    dite (dec_lt 9 n)
      (λ h. emit (n / 10) (smaller (n / 10) (omega arith)) (String.◌∷◌ (digit (n % 10)) out))
      (λ _. String.◌∷◌ (digit n) out)

digits : ℕ → String → String
unfolding emit lt_wf digit dec_lt
digits n = emit n (lt_wf.apply n)

-- strconv.Itoa
unfoldable pub itoa : ℤ → String
unfolding digits
itoa (pos n) = digits n ""
itoa (negsuc n) = String.◌∷◌ "-" (digits (suc n) "")

-- What strconv makes of the digits.
pub data Scanned : Type 0 where
  number : ℕ → Scanned
  bad_syntax out_of_range : Scanned

is_digit : Char → Bool
is_digit c = leb 48 (code c) && leb (code c) 57

-- The loop of strconv.ParseUint, for base 10 and 64 bits.
scan : String → ℕ → Scanned
unfolding is_digit
scan String.[] n = number n
scan (String.◌∷◌ c s) n =
    let m = n * 10 + (code c - 48) in
    let rest = scan s m in
    if is_digit c then (if ltb max_uint m then out_of_range else rest) else bad_syntax

-- The value that Atoi returns and whether its error is nil.
abbrev pub Parsed : Type 0
Parsed = ℤ × Bool

positive : Scanned → Parsed
positive (number n) = if ltb max_int n then (pos max_int, false) else (pos n, true)
positive bad_syntax = (pos 0, false)
positive out_of_range = (pos max_int, false)

negative : Scanned → Parsed
negative (number zero) = (pos 0, true)
negative (number (suc n)) = if ltb max_int n then (negsuc max_int, false) else (negsuc n, true)
negative bad_syntax = (pos 0, false)
negative out_of_range = (negsuc max_int, false)

-- The number behind a sign, which wants a digit.
unsigned : String → Scanned
unfolding scan
unsigned String.[] = bad_syntax
unsigned (String.◌∷◌ c s) = scan (String.◌∷◌ c s) 0

-- strconv.Atoi
unfoldable pub atoi : String → Parsed
unfolding unsigned positive negative
atoi String.[] = (pos 0, false)
atoi (String.◌∷◌ c s) =
    if code c == b'-'
    then negative (unsigned s)
    else if code c == b'+'
    then positive (unsigned s)
    else positive (unsigned (String.◌∷◌ c s))

itoa_negative : itoa (negsuc 1233) ≡ "-1234"
unfolding itoa
itoa_negative = refl

atoi_leading_zeros : atoi "+0042" ≡ (pos 42, true)
unfolding atoi
atoi_leading_zeros = refl

atoi_error : atoi "12a" ≡ (pos 0, false)
unfolding atoi
atoi_error = refl

atoi_range : atoi "-99999999999999999999" ≡ (negsuc max_int, false)
unfolding atoi
atoi_range = refl
