-- ===== src/Decimal/Bounds.antt =====
-- Atoi stays in the range of its result, also where it reports an error.
use Prim.Native.Char.{code}
use mariadb_ha_operator.Base.{zero, suc, String, arith, ◌==◌, nat_eq, Bool-cases, inl, inr}
use mariadb_ha_operator.Decimal.{
  Scanned, number, bad_syntax, out_of_range, positive, negative, unsigned, atoi,
}
use mariadb_ha_operator.Decimal.RoundTrip.{IsInt}

positive-IsInt : (r : Scanned) → IsInt (positive r).0
unfolding positive
positive-IsInt (number n) = ground arith
positive-IsInt bad_syntax = omega arith
positive-IsInt out_of_range = omega arith

negative-IsInt : (r : Scanned) → IsInt (negative r).0
unfolding negative
negative-IsInt (number zero) = omega arith
negative-IsInt (number (suc n)) = ground arith
negative-IsInt bad_syntax = omega arith
negative-IsInt out_of_range = omega arith

pub atoi-IsInt : (t : String) → IsInt (atoi t).0
unfolding atoi
atoi-IsInt String.[] = omega arith
atoi-IsInt (String.◌∷◌ c s) = elim (Bool-cases (code c == b'-')) [
  | inl minus ↦ rw minus (negative-IsInt (unsigned s))
  | inr e ↦ elim (Bool-cases (code c == b'+')) [
    | inl plus ↦ rw (e, plus) (positive-IsInt (unsigned s))
    | inr f ↦ rw (e, f) (positive-IsInt (unsigned (String.◌∷◌ c s)))
  ]
]
