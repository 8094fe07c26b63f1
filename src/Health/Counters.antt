-- ===== src/Health/Counters.antt =====
-- The failure counters, which the annotations of the MariaDBHA hold as decimal texts.
pub mod Laws
pub mod Tally
use mariadb_ha_operator.Base.{
  String, ℕ, suc, ℤ, pos, negsuc, ltb_ℤ, Bool, Option, none, some, ◌==◌, nat_eq, if◌then◌else◌,
}
use mariadb_ha_operator.Decimal.{itoa, atoi, max_int}
use mariadb_ha_operator.StringMap.{StringMap, lookup, insert, delete}
use mariadb_ha_operator.Api.{MariaDbHa}

-- PrimaryFailCountAnnotation, SecondaryFailCountAnnotation
abbrev pub fail_count_annotation : Bool → String
fail_count_annotation is_primary =
    if is_primary
    then "database.cpf-it.fr/primary-fail-count"
    else "database.cpf-it.fr/secondary-fail-count"

unfoldable pub count_of : Option String → ℤ
count_of none = pos 0
count_of (some text) = let (n, fine) = atoi text in if fine then n else pos 0

-- getFailureCount
unfoldable pub get_failure_count : MariaDbHa → Bool → ℤ
unfolding count_of
get_failure_count ha is_primary =
    count_of (lookup (fail_count_annotation is_primary) ha.annotations)

-- saveFailureCount
unfoldable pub save_failure_count : Bool → ℤ → MariaDbHa → MariaDbHa
save_failure_count is_primary count ha =
    let k = fail_count_annotation is_primary in
    record ha {
      annotations =
          if ltb_ℤ (pos 0) count
          then insert k (itoa count) ha.annotations
          else delete k ha.annotations;
    }

-- resetFailureCount
unfoldable pub reset_failure_count : Bool → MariaDbHa → MariaDbHa
reset_failure_count is_primary ha = record ha {
  annotations = delete (fail_count_annotation is_primary) ha.annotations;
}

-- `count++` on a 64-bit int
unfoldable pub increment : ℤ → ℤ
increment (pos n) = if n == max_int then negsuc max_int else pos (suc n)
increment (negsuc ℕ.zero) = pos 0
increment (negsuc (suc n)) = negsuc n
