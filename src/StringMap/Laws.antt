-- ===== src/StringMap/Laws.antt =====
-- The laws of `lookup`, `insert`, `delete` and of the copying loop, for any keys.
use mathlib.Core.Option.{or_else}
use mariadb_ha_operator.Base.{
  suc, length, String, [], ◌∷◌, none, some, ◌≡◌, refl, arith, ◌==◌, string_eq, eq_iff,
  if◌then◌else◌,
}
use mariadb_ha_operator.StringMap.{StringMap, lookup, insert, delete, insert_all, NodupKeys}

-- What a lookup of `asked` finds after a write of `written`.
module _ (written asked : String) where
  pub lookup-insert :
      (value : String) (m : StringMap)
      → lookup asked (insert written value m)
        ≡ (if written == asked then some value else lookup asked m)
  unfolding insert lookup
  lookup-insert value [] = refl
  lookup-insert value ((name, old) ∷ rest) = ground (
    arith,
    lookup-insert value rest,
    eq_iff name asked,
    eq_iff name written,
    eq_iff written asked,
  )

  pub lookup-delete :
      (m : StringMap)
      → lookup asked (delete written m) ≡ (if written == asked then none else lookup asked m)
  unfolding delete lookup
  lookup-delete [] = ground arith
  lookup-delete ((name, old) ∷ rest) =
      ground
        (arith, lookup-delete rest, eq_iff name asked, eq_iff name written, eq_iff written asked)

pub insert-NodupKeys : (k v : String) (m : StringMap) → NodupKeys m → NodupKeys (insert k v m)
unfolding insert lookup
insert-NodupKeys k v [] u = (refl, tt)
insert-NodupKeys k v ((j, w) ∷ m) (fresh, u) =
    ground (arith, eq_iff j k, eq_iff k j, lookup-insert k j v m, insert-NodupKeys k v m u)

pub insert_all-NodupKeys : (m into : StringMap) → NodupKeys into → NodupKeys (insert_all m into)
unfolding insert_all
insert_all-NodupKeys [] into u = u
insert_all-NodupKeys ((k, v) ∷ m) into u =
    insert_all-NodupKeys m (insert k v into) (insert-NodupKeys k v into u)

-- After the copying loop a key has the value of the map that was copied, if it is there.
pub lookup-insert_all :
    (j : String) (m into : StringMap)
    → NodupKeys m
    → lookup j (insert_all m into) ≡ or_else (lookup j m) (lookup j into)
unfolding insert_all lookup or_else
lookup-insert_all j [] into u = refl
lookup-insert_all j ((k, v) ∷ m) into (fresh, u) =
    ground (arith, eq_iff k j, lookup-insert_all j m (insert k v into) u, lookup-insert k j v into)

pub delete-NodupKeys : (k : String) (m : StringMap) → NodupKeys m → NodupKeys (delete k m)
unfolding delete
delete-NodupKeys k [] u = tt
delete-NodupKeys k ((j, w) ∷ m) (fresh, u) =
    ground (arith, lookup-delete k j m, delete-NodupKeys k m u)

delete_of_absent : (k : String) (m : StringMap) → lookup k m ≡ none → delete k m ≡ m
unfolding delete lookup
delete_of_absent k [] h = refl
delete_of_absent k ((j, w) ∷ m) h = ground (arith, delete_of_absent k m)

pub length-delete :
    (k : String) (m : StringMap) (v : String)
    → NodupKeys m
    → lookup k m ≡ some v
    → length m ≡ suc (length (delete k m))
unfolding delete lookup
length-delete k [] v u h = cc
length-delete k ((j, w) ∷ m) v (fresh, u) h =
    ground (arith, eq_iff j k, length-delete k m v u, delete_of_absent k m)
