-- ===== src/Services/Selectors.antt =====
-- `mapsEqual` decides whether two maps have the same entries.
use mariadb_ha_operator.Base.{
  ◌≤◌, String, ◌≡◌, refl, true, Option, none, some, [], ◌∷◌, ◌↔◌, arith, length, string_eq, eq_iff,
  nat_beq_iff, sym, ◌∙◌,
}
use mariadb_ha_operator.StringMap.{StringMap, lookup, delete, NodupKeys}
use mariadb_ha_operator.StringMap.Laws.{lookup-delete, delete-NodupKeys, length-delete}
use mariadb_ha_operator.Services.{has_value, entries_match, maps_equal}

-- Each entry of `m` stands in `n`.
abbrev Included : StringMap → StringMap → Type 0
Included m n = (k v : String) → lookup k m ≡ some v → lookup k n ≡ some v

has_value_lem : (o : Option String) (v : String) → has_value o v ≡ true → o ≡ some v
unfolding has_value
has_value_lem none v h = cc
has_value_lem (some w) v h = ground (arith, eq_iff v w)

entries_match-lookup :
    (m n : StringMap) (k v : String)
    → entries_match m n ≡ true
    → lookup k m ≡ some v
    → lookup k n ≡ some v
unfolding entries_match lookup
entries_match-lookup [] n k v h e = cc
entries_match-lookup ((j, w) ∷ m) n k v h e =
    ground (arith, eq_iff j k, has_value_lem (lookup j n) w, entries_match-lookup m n k v)

Included-entries_match : (m n : StringMap) → NodupKeys m → Included m n → entries_match m n ≡ true
unfolding entries_match lookup has_value
Included-entries_match [] n u h = refl
Included-entries_match ((j, w) ∷ m) n (fresh, u) h = ground (
  arith,
  eq_iff j j,
  eq_iff w w,
  h j w,
  Included-entries_match m n u (λ k v e. h k v (ground (arith, eq_iff j k))),
)

-- A map with no more entries than one that includes it has all of that one's entries.
Included-back :
    (m n : StringMap)
    → NodupKeys m
    → NodupKeys n
    → Included m n
    → length n ≤ length m
    → Included n m
unfolding lookup
Included-back [] [] um un h le k v e = e
Included-back [] (_ ∷ n) um un h le k v e = absurd (omega arith)
Included-back ((j, w) ∷ m) n (fresh, um) un h le k v e =
    let there : lookup j n ≡ some w = h j w (ground (arith, eq_iff j j)) in
    let rest : Included (delete j n) m =
      Included-back m (delete j n) um (delete-NodupKeys j n un)
        (λ i x p. rw lookup-delete (ground (arith, h i x, eq_iff j i)))
        (omega (arith, length-delete j n w un there)) in
    ground (arith, eq_iff j k, rest k v, lookup-delete j k n, h j w)

Included-length : (m n : StringMap) → NodupKeys m → NodupKeys n → Included m n → length m ≤ length n
unfolding lookup
Included-length [] n um un h = omega arith
Included-length ((j, w) ∷ m) n (fresh, um) un h =
    let there : lookup j n ≡ some w = h j w (ground (arith, eq_iff j j)) in
    let rest : length m ≤ length (delete j n) =
      Included-length m (delete j n) um (delete-NodupKeys j n un)
        (λ i x p. rw lookup-delete (ground (arith, h i x, eq_iff j i))) in
    omega (arith, length-delete j n w un there)

abbrev pub SameEntries : StringMap → StringMap → Type 0
SameEntries m n = (k : String) → lookup k m ≡ lookup k n

maps_equal-lookup : (m n : StringMap) → maps_equal m n ≡ true → (length m ≡ length n) × Included m n
unfolding maps_equal
maps_equal-lookup m n h = (
  ground (arith, nat_beq_iff (length m) (length n)),
  λ k v. entries_match-lookup m n k v (ground arith),
)

Option-ext :
    (o p : Option String)
    → ((v : String) → o ≡ some v → p ≡ some v)
    → ((v : String) → p ≡ some v → o ≡ some v)
    → o ≡ p
Option-ext none none f g = refl
Option-ext none (some v) f g = g v refl
Option-ext (some v) p f g = sym (f v refl)

-- For maps with no key twice, mapsEqual returns true exactly when every key has the same value, or
-- none, in both.
pub maps_equal_iff :
    (m n : StringMap) → NodupKeys m → NodupKeys n → (maps_equal m n ≡ true) ↔ SameEntries m n
maps_equal_iff m n um un = (
  λ h. λ k.
      let (e, inc) = maps_equal-lookup m n h in
      Option-ext (lookup k m) (lookup k n) (inc k) (Included-back m n um un inc (omega arith) k),
  λ same.
      unfold maps_equal in
      let there : Included m n = λ k v e. sym (same k) ∙ e in
      let back : Included n m = λ k v e. same k ∙ e in
      ground (
        arith,
        Included-length m n um un there,
        Included-length n m un um back,
        Included-entries_match m n um there,
      ),
)
