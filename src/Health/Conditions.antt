-- ===== src/Health/Conditions.antt =====
-- The conditions of the status: a list in which the program keeps one entry for each type.
pub mod Laws
use mariadb_ha_operator.Base.{
  String, Bool, true, false, List, [], ◌∷◌, ◌&&◌, ◌||◌, ◌==◌, string_eq, if◌then◌else◌,
}
use mariadb_ha_operator.Api.{MariaDbHa, Condition, ConditionStatus, condition_true, condition_false}

abbrev pub primary_ready : String
primary_ready = "PrimaryReady"

abbrev pub secondary_ready : String
secondary_ready = "SecondaryReady"

abbrev pub replication_active : String
replication_active = "ReplicationActive"

abbrev pub same_status : ConditionStatus → ConditionStatus → Bool
same_status condition_true condition_true = true
same_status condition_false condition_false = true
same_status _ _ = false

abbrev pub status_of_bool : Bool → ConditionStatus
status_of_bool b = if b then condition_true else condition_false

-- The loop returns at the first entry of the type, if that has the status already.
unfoldable pub is_current : String → ConditionStatus → List Condition → Bool
is_current kind status [] = false
is_current kind status (c ∷ cs) =
    if c.kind == kind then same_status c.status status else is_current kind status cs

-- The first entry of the type is overwritten; without one the new entry is appended.
unfoldable pub put_condition : Condition → List Condition → List Condition
put_condition new [] = new ∷ []
put_condition new (c ∷ cs) = if c.kind == new.kind then new ∷ cs else c ∷ put_condition new cs

-- The loops that bring the conditions of the object up to date with `new`.
unfoldable pub set_condition : Condition → MariaDbHa → MariaDbHa
set_condition new ha = record ha {
  status = record ha.status { conditions = put_condition new ha.status.conditions };
}

-- `replicationConfigured`: some entry of the type is true.
unfoldable pub is_configured : List Condition → Bool
is_configured [] = false
is_configured (c ∷ cs) =
    (c.kind == replication_active && same_status c.status condition_true) || is_configured cs
