-- ===== src/Health/Counters/Tally.antt =====
-- The failure counters as an abstract tally: for each instance the number of checks that have failed
-- since the last one that passed, or since the last reset.
use mariadb_ha_operator.Base.{
  String, ◌≡◌, ◌≢◌, refl, ◌<ℤ◌, ◌<◌, ℕ, zero, suc, ◌+◌, ◌≤◌, ℤ, pos, negsuc, Bool, true, false,
  none, some, Option, List, [], ◌∷◌, arith, length, nat_eq, if◌then◌else◌,
}
use mariadb_ha_operator.Decimal.{max_int}
use mariadb_ha_operator.Decimal.RoundTrip.{IsInt}
use mariadb_ha_operator.Decimal.Bounds.{atoi-IsInt}
use mariadb_ha_operator.StringMap.{lookup}
use mariadb_ha_operator.Api.{MariaDbHa}
use mariadb_ha_operator.Health.Counters.{
  fail_count_annotation, count_of, get_failure_count, save_failure_count, reset_failure_count,
  increment,
}
use mariadb_ha_operator.Health.Counters.Laws.{get-save_failure_count}
use mariadb_ha_operator.Health.Checks.{fail_count}

-- What the program does to a counter: a check of the primary or the secondary, or a failover.
pub data Event : Type 0 where
  checked : (is_primary healthy : Bool) → Event
  reset : (is_primary : Bool) → Event

-- The program's functions, in the order of the events.
abbrev pub count_event : Event → MariaDbHa → MariaDbHa
count_event (checked p healthy) ha = save_failure_count p (fail_count ha p healthy) ha
count_event (reset p) ha = reset_failure_count p ha

abbrev pub count_events : List Event → MariaDbHa → MariaDbHa
count_events [] ha = ha
count_events (e ∷ es) ha = count_events es (count_event e ha)

pub record Tally : Type 0 where
  pub primary : ℕ
  pub secondary : ℕ

abbrev pub of : Tally → Bool → ℕ
of t p = if p then t.primary else t.secondary

abbrev set : Bool → ℕ → Tally → Tally
set true n t = record t { primary = n }
set false n t = record t { secondary = n }

abbrev pub tally_event : Event → Tally → Tally
tally_event (checked p true) t = set p 0 t
tally_event (checked p false) t = set p (suc (of t p)) t
tally_event (reset p) t = set p 0 t

abbrev pub tally_events : List Event → Tally → Tally
tally_events [] t = t
tally_events (e ∷ es) t = tally_events es (tally_event e t)

-- The annotations of the object say what the tally says.
pub record Represents (ha : MariaDbHa) (t : Tally) : Type 0 where
  pub primary : get_failure_count ha true ≡ pos t.primary
  pub secondary : get_failure_count ha false ≡ pos t.secondary

count_of-IsInt : (o : Option String) → IsInt (count_of o)
unfolding count_of
count_of-IsInt none = omega arith
count_of-IsInt (some text) = ground (arith, atoi-IsInt text)

increment-IsInt : (n : ℤ) → IsInt n → IsInt (increment n)
unfolding increment
increment-IsInt (pos n) h = ground arith
increment-IsInt (negsuc zero) h = omega arith
increment-IsInt (negsuc (suc n)) h = omega arith

grows : (n : ℤ) → n ≢ pos max_int → n <ℤ increment n
unfolding increment
grows (pos n) h = ground arith
grows (negsuc zero) h = omega arith
grows (negsuc (suc n)) h = omega arith

-- Whatever text the annotation holds, the count after a check is an int of 64 bits. A check that
-- passes makes it 0, and one that fails makes it greater, unless it was the largest int before.
pub fail_count-bounds :
    (ha : MariaDbHa) (p healthy : Bool)
    → IsInt (fail_count ha p healthy)
      × (healthy ≡ true → fail_count ha p healthy ≡ pos 0)
      × (healthy ≡ false
          → get_failure_count ha p ≢ pos max_int
          → get_failure_count ha p <ℤ fail_count ha p healthy)
unfolding fail_count get_failure_count
fail_count-bounds ha p true = (omega arith, λ e. refl, λ e. absurd cc)
fail_count-bounds ha p false =
    let count = count_of (lookup (fail_count_annotation p) ha.annotations) in
    (increment-IsInt count (count_of-IsInt _), λ e. absurd cc, λ e below. grows count below)

module _ (ha : MariaDbHa) (t : Tally) (w : Represents ha t) where
  -- One counter is written, the other one stays.
  save-Represents :
      (p : Bool) (n : ℕ) → n ≤ max_int → Represents (save_failure_count p (pos n) ha) (set p n t)
  save-Represents true n fits = record {
    primary = ground (arith, get-save_failure_count ha true true (pos n) fits);
    secondary = ground (arith, w.secondary, get-save_failure_count ha true false (pos n) fits);
  }
  save-Represents false n fits = record {
    primary = ground (arith, w.primary, get-save_failure_count ha false true (pos n) fits);
    secondary = ground (arith, get-save_failure_count ha false false (pos n) fits);
  }

  next_count : (p : Bool) → of t p < max_int → fail_count ha p false ≡ pos (suc (of t p))
  unfolding fail_count increment
  next_count true below = ground (arith, w.primary)
  next_count false below = ground (arith, w.secondary)

  count_event-Represents :
      (e : Event)
      → t.primary < max_int
      → t.secondary < max_int
      → Represents (count_event e ha) (tally_event e t)
  unfolding reset_failure_count save_failure_count fail_count
  count_event-Represents (checked true true) a b = save-Represents true 0 (omega arith)
  count_event-Represents (checked false true) a b = save-Represents false 0 (omega arith)
  count_event-Represents (checked true false) a b =
      rw (next_count true a) (save-Represents true (suc t.primary) (omega arith))
  count_event-Represents (checked false false) a b =
      rw (next_count false b) (save-Represents false (suc t.secondary) (omega arith))
  count_event-Represents (reset true) a b = save-Represents true 0 (omega arith)
  count_event-Represents (reset false) a b = save-Represents false 0 (omega arith)

tally_event-le :
    (e : Event) (t : Tally)
    → ((tally_event e t).primary ≤ suc t.primary) × ((tally_event e t).secondary ≤ suc t.secondary)
tally_event-le (checked true true) t = omega arith
tally_event-le (checked false true) t = omega arith
tally_event-le (checked true false) t = omega arith
tally_event-le (checked false false) t = omega arith
tally_event-le (reset true) t = omega arith
tally_event-le (reset false) t = omega arith

-- If the annotations say what a tally says, they still do after any sequence of checks and resets
-- for which the ints of 64 bits are enough: each counter is the number of checks of its instance that
-- failed since the last one that passed, or since the last reset.
pub count_events-Represents :
    (es : List Event) (ha : MariaDbHa) (t : Tally)
    → Represents ha t
    → t.primary + length es ≤ max_int
    → t.secondary + length es ≤ max_int
    → Represents (count_events es ha) (tally_events es t)
count_events-Represents [] ha t w a b = w
count_events-Represents (e ∷ es) ha t w a b =
    let le = tally_event-le e t in
    count_events-Represents es (count_event e ha) (tally_event e t)
      (count_event-Represents ha t w e (omega arith) (omega arith)) (omega (arith, le))
      (omega (arith, le))
