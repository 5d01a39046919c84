-- ===== src/Scenarios/Schema.antt =====
-- A database that keeps what was created, the last first.
use open_data_gov.Prelude.{
  String, ◌≡◌, refl, Bool, false, List, [], ◌∷◌, ◌==◌, string_eq, ==_refl, arith, if◌then◌else◌,
}
use open_data_gov.Prelude.Exec.{ok, err, Exec, pure, ◌>>=◌}
use open_data_gov.Schema.Operations.{Operation, run_operations, upgrade_all, downgrade_all}
use open_data_gov.Schema.Versions.{later_migrations}
use open_data_gov.Schema.Undone.{Drops, downgrade_all-upgrade_all}

abbrev dropped_by : (created dropping : Operation) → Bool
dropped_by (Operation.create_table name columns) (Operation.drop_table other) = name == other
dropped_by (Operation.create_index name table columns unique) (Operation.drop_index other) =
    name == other
dropped_by _ _ = false

abbrev drop_last : Operation → Exec (List Operation) String (Unit {0})
drop_last d [] = (err "nothing to drop", [])
drop_last d (o ∷ s) = if dropped_by o d then (ok tt, s) else (err "another object", o ∷ s)

abbrev stack : Operation → Exec (List Operation) String (Unit {0})
stack (Operation.create_table name columns) s = (ok tt, Operation.create_table name columns ∷ s)
stack (Operation.create_index name table columns unique) s =
    (ok tt, Operation.create_index name table columns unique ∷ s)
stack (Operation.execute statement) s = (ok tt, s)
stack (Operation.drop_table name) s = drop_last (Operation.drop_table name) s
stack (Operation.drop_index name) s = drop_last (Operation.drop_index name) s

stack-Drops : Drops stack
stack-Drops (Operation.create_table name columns) d s inverted done =
    ground (arith, inverted, ==_refl name)
stack-Drops (Operation.create_index name table columns unique) d s inverted done =
    ground (arith, inverted, ==_refl name)
stack-Drops (Operation.execute statement) d s inverted done = absurd (ground (arith, inverted))
stack-Drops (Operation.drop_table name) d s inverted done = absurd (ground (arith, inverted))
stack-Drops (Operation.drop_index name) d s inverted done = absurd (ground (arith, inverted))

downgrade_all-upgrade_all_example :
    downgrade_all stack later_migrations (upgrade_all stack later_migrations []).1 ≡ (ok tt, [])
unfolding upgrade_all run_operations pure ◌>>=◌
downgrade_all-upgrade_all_example = downgrade_all-upgrade_all stack stack-Drops [] refl
