-- ===== src/Health/Counters/Laws.antt =====
-- The counters that the annotations hold: what is saved is read back, and each has its own.
use mariadb_ha_operator.Base.{
  ◌≡◌, ℤ, pos, ltb_ℤ, Bool, true, false, not, none, some, arith, Bool-cases, inl, inr, string_eq,
  if◌then◌else◌,
}
use mariadb_ha_operator.Decimal.{itoa}
use mariadb_ha_operator.Decimal.RoundTrip.{IsInt, atoi-itoa}
use mariadb_ha_operator.StringMap.{lookup}
use mariadb_ha_operator.StringMap.Laws.{lookup-insert, lookup-delete}
use mariadb_ha_operator.Api.{MariaDbHa}
use mariadb_ha_operator.Health.Counters.{
  fail_count_annotation, count_of, get_failure_count, save_failure_count,
}

lookup-save_failure_count :
    (ha : MariaDbHa) (saved read : Bool) (n : ℤ)
    → lookup (fail_count_annotation read) (save_failure_count saved n ha).annotations ≡ (
        if (if saved then read else not read)
        then (if ltb_ℤ (pos 0) n then some (itoa n) else none)
        else lookup (fail_count_annotation read) ha.annotations)
unfolding save_failure_count
lookup-save_failure_count ha true true n = ground (
  arith,
  lookup-insert (fail_count_annotation true) (fail_count_annotation true) (itoa n) ha.annotations,
  lookup-delete (fail_count_annotation true) (fail_count_annotation true) ha.annotations,
)
lookup-save_failure_count ha true false n = ground (
  arith,
  lookup-insert (fail_count_annotation true) (fail_count_annotation false) (itoa n) ha.annotations,
  lookup-delete (fail_count_annotation true) (fail_count_annotation false) ha.annotations,
)
lookup-save_failure_count ha false true n = ground (
  arith,
  lookup-insert (fail_count_annotation false) (fail_count_annotation true) (itoa n) ha.annotations,
  lookup-delete (fail_count_annotation false) (fail_count_annotation true) ha.annotations,
)
lookup-save_failure_count ha false false n = ground (
  arith,
  lookup-insert (fail_count_annotation false) (fail_count_annotation false) (itoa n) ha.annotations,
  lookup-delete (fail_count_annotation false) (fail_count_annotation false) ha.annotations,
)

-- The count that getFailureCount reads after saveFailureCount: of the instance that was saved, the
-- count itself, or 0 in place of a negative one; of the other instance, what it was before. The count
-- is an int of 64 bits.
pub get-save_failure_count :
    (ha : MariaDbHa) (saved read : Bool) (n : ℤ)
    → IsInt n
    → get_failure_count (save_failure_count saved n ha) read ≡ (
        if (if saved then read else not read)
        then (if ltb_ℤ (pos 0) n then n else pos 0)
        else get_failure_count ha read)
unfolding get_failure_count save_failure_count count_of
get-save_failure_count ha saved read n h =
    let there = lookup-save_failure_count ha saved read n in
    elim (Bool-cases (if saved then read else not read)) [
      | inl same ↦ elim (Bool-cases (ltb_ℤ (pos 0) n)) [
        | inl more ↦ grind (arith, there, same, more, atoi-itoa n h)
        | inr less ↦ grind (arith, there, same, less)
      ]
      | inr other ↦ grind (arith, there, other)
    ]
