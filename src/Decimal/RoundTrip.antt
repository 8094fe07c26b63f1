-- ===== src/Decimal/RoundTrip.antt =====
-- Atoi reads back what Itoa prints.
use Prim.Native.Char.{code}
use mathlib.Core.Logic.{ite, dite, if_pos, if_neg}
use mathlib.Core.WellFounded
use mathlib.Core.WellFounded.{Acc, Acc-prop}
use native.Mathlib.Decide.{dec_lt}
use mariadb_ha_operator.Base.{
  ℕ, zero, suc, ◌+◌, ◌*◌, ◌/◌, ◌%◌, ◌≤◌, ◌<◌, ◌≡◌, refl, String, ℤ, pos, negsuc, true, arith,
}
use mariadb_ha_operator.Decimal.{
  max_int, max_uint, lt_wf, digit, emit, digits, itoa, scan, unsigned, positive, negative, atoi,
}

code-digit : (d : ℕ) → d < 10 → code (digit d) ≡ d + 48
unfolding digit
code-digit zero h = refl
code-digit (suc zero) h = refl
code-digit (suc (suc zero)) h = refl
code-digit (suc (suc (suc zero))) h = refl
code-digit (suc (suc (suc (suc zero)))) h = refl
code-digit (suc (suc (suc (suc (suc zero))))) h = refl
code-digit (suc (suc (suc (suc (suc (suc zero)))))) h = refl
code-digit (suc (suc (suc (suc (suc (suc (suc zero))))))) h = refl
code-digit (suc (suc (suc (suc (suc (suc (suc (suc zero)))))))) h = refl
code-digit (suc (suc (suc (suc (suc (suc (suc (suc (suc zero))))))))) h = refl
code-digit (suc (suc (suc (suc (suc (suc (suc (suc (suc (suc d)))))))))) h = absurd (omega arith)

emit_step :
    (n : ℕ) (w : Acc ◌<◌ n) (w' : Acc ◌<◌ (n / 10)) (out : String)
    → emit n w out
      ≡ ite
          (dec_lt 9 n)
          (emit (n / 10) w' (String.◌∷◌ (digit (n % 10)) out))
          (String.◌∷◌ (digit n) out)
unfolding emit
emit_step n (Acc.intro _ smaller) w' out = λ i.
    dite (dec_lt 9 n)
      (λ h.
        emit (n / 10) (Acc-prop (smaller (n / 10) (omega arith)) w' i)
          (String.◌∷◌ (digit (n % 10)) out))
      (λ _. String.◌∷◌ (digit n) out)

digits_step :
    (n : ℕ) (out : String)
    → digits n out
      ≡ ite
          (dec_lt 9 n)
          (digits (n / 10) (String.◌∷◌ (digit (n % 10)) out))
          (String.◌∷◌ (digit n) out)
unfolding digits
digits_step n = emit_step n (lt_wf.apply n) (lt_wf.apply (n / 10))

scan-digit :
    (n d : ℕ) (out : String)
    → d < 10
    → n * 10 + d ≤ max_uint
    → scan (String.◌∷◌ (digit d) out) n ≡ scan out (n * 10 + d)
unfolding scan
scan-digit n d out h fits = ground (arith, code-digit d h)

scan-digits : (n : ℕ) (out : String) → n ≤ max_uint → scan (digits n out) 0 ≡ scan out n
scan-digits n =
    WellFounded.induction lt_wf
      {C = λ m. (out : String) → m ≤ max_uint → scan (digits m out) 0 ≡ scan out m} n
      λ m ih out fits. grind (
        arith,
        digits_step m out,
        scan-digit (m / 10) (m % 10) out,
        scan-digit 0 m out,
        ih (m / 10),
      )

-- A print begins with a digit.
abbrev StartsWithDigit : String → Type 0
StartsWithDigit t = (d : ℕ) × (s : String) × (d < 10) × (t ≡ String.◌∷◌ (digit d) s)

digits-StartsWithDigit : (n : ℕ) (out : String) → StartsWithDigit (digits n out)
digits-StartsWithDigit n =
    WellFounded.induction lt_wf {C = λ m. (out : String) → StartsWithDigit (digits m out)} n
      λ m ih out. elim (dec_lt 9 m) [
        | yes h ↦
            let (d, s, p, e) = ih (m / 10) (omega arith) (String.◌∷◌ (digit (m % 10)) out) in
            (d, s, p, rw digits_step (rw (if_pos _ h) e))
        | no h ↦ (m, out, omega arith, rw digits_step (rw (if_neg _ h)))
      ]

-- Behind a digit Atoi takes the whole text for an unsigned number.
atoi-digit :
    (t s : String) (d : ℕ) → d < 10 → t ≡ String.◌∷◌ (digit d) s → atoi t ≡ positive (scan t 0)
unfolding atoi
atoi-digit t s d h e = rw e (ground (arith, code-digit d h))

unsigned-digit : (t s : String) (d : ℕ) → t ≡ String.◌∷◌ (digit d) s → unsigned t ≡ scan t 0
unfolding unsigned
unsigned-digit t s d e = rw e

itoa_pos : (n : ℕ) → n ≤ max_int → atoi (itoa (pos n)) ≡ (pos n, true)
unfolding positive itoa scan
itoa_pos n h =
    let (d, s, p, e) = digits-StartsWithDigit n "" in
    rw (atoi-digit (digits n "") s d p e) (rw (scan-digits n "" (omega arith)) (ground arith))

itoa_negsuc : (n : ℕ) → n ≤ max_int → atoi (itoa (negsuc n)) ≡ (negsuc n, true)
unfolding atoi negative itoa scan
itoa_negsuc n h =
    let (d, s, p, e) = digits-StartsWithDigit (suc n) "" in
    rw (unsigned-digit (digits (suc n) "") s d e)
      (rw (scan-digits (suc n) "" (omega arith)) (ground arith))

-- The values of a 64-bit int.
abbrev pub IsInt : ℤ → Type 0
IsInt (pos n) = n ≤ max_int
IsInt (negsuc n) = n ≤ max_int

-- Atoi reads every int back from its Itoa print, with no error.
pub atoi-itoa : (z : ℤ) → IsInt z → atoi (itoa z) ≡ (z, true)
atoi-itoa (pos n) h = itoa_pos n h
atoi-itoa (negsuc n) h = itoa_negsuc n h
