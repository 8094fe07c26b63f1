-- ===== src/Config/Reading.antt =====
-- How a MariaDB server reads the generated configuration: a line `name = value` sets an option, and a
-- later line overrides an earlier one.
use Prim.Native.Char.{char, code}
use Prim.Native.String.{[] as empty, ◌∷◌ as ◌◂◌}
use Prim.Native.String.append
use mathlib.Core.Option.{or_else}
use mariadb_ha_operator.Base.{
  ◌≡◌, refl, sym, ap, ◌∙◌, String, ◌<>◌, Bool, true, false, ◌&&◌, Option, none, some, List, [], ◌∷◌,
  ◌++◌, ◌==◌, nat_eq, string_eq, if◌then◌else◌, Bool-cases, inl, inr,
}

-- A line up to its first space, and behind it.
unfoldable pub split_line : String → String × String
split_line empty = ("", "")
split_line (c ◂ l) =
    let (name, rest) = split_line l in if code c == 32 then ("", l) else (c ◂ name, rest)

-- The text behind `= `.
unfoldable pub after_equals : String → Option String
after_equals (c ◂ d ◂ v) = if code c == 61 && code d == 32 then some v else none
after_equals _ = none

abbrev given : String → Option String → Option (String × String)
given name none = none
given name (some value) = some (name, value)

-- The name and the value of a line that sets an option.
unfoldable pub assigned : String → Option (String × String)
unfolding split_line after_equals
assigned l = let (name, rest) = split_line l in given name (after_equals rest)

abbrev if_named : String → Option (String × String) → Option String
if_named k none = none
if_named k (some (name, value)) = if name == k then some value else none

-- The value that a line gives to an option.
unfoldable pub value_at : String → String → Option String
unfolding assigned
value_at k l = if_named k (assigned l)

-- The value that the lines leave.
unfoldable pub setting : String → List String → Option String
setting k [] = none
setting k (l ∷ ls) = or_else (setting k ls) (value_at k l)

-- A name without a space, as the name of every option is.
abbrev pub IsName : String → Type 0
IsName empty = Unit
IsName (c ◂ k) = ((code c == 32) ≡ false) × IsName k

abbrev is_name : String → Bool
is_name empty = true
is_name (c ◂ k) = let rest = is_name k in if code c == 32 then false else rest

-- The test decides it for a literal.
pub is_name-IsName : (k : String) → is_name k ≡ true → IsName k
is_name-IsName empty e = tt
is_name-IsName (c ◂ k) e = elim (Bool-cases (code c == 32)) [
  | inl space ↦ let wrong : is_name (c ◂ k) ≡ false = rw space refl in absurd cc
  | inr no_space ↦ (no_space, is_name-IsName k (sym (rw no_space refl) ∙ e))
]

equals : (v : String) → (" = " <> v) ≡ (char 32 tt ◂ ("= " <> v))
equals v = append.cons (char 32 tt) "= " v

split-name : (k v : String) → IsName k → split_line (k <> (" = " <> v)) ≡ (k, "= " <> v)
unfolding split_line
split-name empty v w = rw (append.nil (" = " <> v), equals v) refl
split-name (c ◂ k) v (n, w) = rw (append.cons c k (" = " <> v), n, split-name k v w) refl

equal_sign : (v : String) → ("= " <> v) ≡ (char 61 tt ◂ char 32 tt ◂ v)
equal_sign v =
    append.cons (char 61 tt) " " v
    ∙ ap (λ t. char 61 tt ◂ t)
        (append.cons (char 32 tt) "" v ∙ ap (λ t. char 32 tt ◂ t) (append.nil v))

pub value_at-line :
    (asked k v : String)
    → IsName k
    → value_at asked (k <> (" = " <> v)) ≡ (if k == asked then some v else none)
unfolding value_at assigned after_equals
value_at-line asked k v w =
    ap (λ (x : String × String). if_named asked (given x.0 (after_equals x.1))) (split-name k v w)
    ∙ ap (λ t. if_named asked (given k (after_equals t))) (equal_sign v)

or_else_assoc : (a b c : Option String) → or_else (or_else a b) c ≡ or_else a (or_else b c)
unfolding or_else
or_else_assoc none b c = refl
or_else_assoc (some a) b c = refl

or_else-none : (o : Option String) → o ≡ or_else o none
unfolding or_else
or_else-none none = refl
or_else-none (some a) = refl

-- Later lines override earlier ones.
pub setting-append :
    (k : String) (ls ms : List String)
    → setting k (ls ++ ms) ≡ or_else (setting k ms) (setting k ls)
unfolding setting
setting-append k [] ms = or_else-none (setting k ms)
setting-append k (l ∷ ls) ms =
    ap (λ o. or_else o (value_at k l)) (setting-append k ls ms)
    ∙ or_else_assoc (setting k ms) (setting k ls) (value_at k l)
