-- ===== src/StringMap.antt =====
-- Go's `map[string]string`: labels, selectors, annotations and configuration parameters.
-- A map is the list of its entries; a nil map reads like an empty one, and so it is `[]`.
pub mod Laws
use mariadb_ha_operator.Base.{
  String, List, [], ◌∷◌, Option, none, some, Bool, true, false, ◌≡◌, ◌==◌, string_eq, if◌then◌else◌,
}

abbrev pub StringMap : Type 0
StringMap = List (String × String)

-- `v, ok := m[k]`
unfoldable pub lookup : String → StringMap → Option String
lookup key [] = none
lookup key ((name, value) ∷ rest) = if name == key then some value else lookup key rest

-- `m[k]`, the empty text for a missing key
unfoldable pub get : StringMap → String → String
get m k = elim (lookup k m) [ none ↦ "" | some v ↦ v ]

-- `_, ok := m[k]`
unfoldable pub contains : String → StringMap → Bool
contains k m = elim (lookup k m) [ none ↦ false | some v ↦ true ]

-- `m[k] = v`
unfoldable pub insert : String → String → StringMap → StringMap
insert key new [] = (key, new) ∷ []
insert key new ((name, value) ∷ rest) =
    if name == key then (key, new) ∷ rest else (name, value) ∷ insert key new rest

-- `delete(m, k)`
unfoldable pub delete : String → StringMap → StringMap
delete k [] = []
delete k ((j, w) ∷ m) = let rest = delete k m in if j == k then rest else (j, w) ∷ rest

-- `for k, v := range m { into[k] = v }`
unfoldable pub insert_all : StringMap → StringMap → StringMap
insert_all [] into = into
insert_all ((k, v) ∷ m) into = insert_all m (insert k v into)

-- No key is listed twice, as in every Go map.
abbrev pub NodupKeys : StringMap → Type 0
NodupKeys [] = Unit
NodupKeys ((k, _) ∷ m) = (lookup k m ≡ none) × NodupKeys m
