-- ===== src/Schema/Operations.antt =====
-- The operations of libs/python/odg-core/src/odg_core/migrations/versions.
use open_data_gov.Prelude.{ℕ, String, Bool, List, [], ◌∷◌, Option}
use open_data_gov.Prelude.Exec.{Exec, pure, ◌>>◌}

-- A type of sqlalchemy. Every timestamp has a time zone.
pub data ColumnType : Type 0 where
  uuid text timestamp jsonb float integer boolean : ColumnType
  string : ℕ → ColumnType

-- An argument of `sa.Column` after its type; "now" stands for `sa.func.now()`.
pub data ColumnOption : Type 0 where
  primary_key is_unique server_now update_now : ColumnOption
  nullable : Bool → ColumnOption
  server_default foreign_key foreign_key_cascade : String → ColumnOption

pub record Column : Type 0 where
  pub name : String
  pub column_type : ColumnType
  pub options : List ColumnOption

abbrev pub sa_column : String → ColumnType → List ColumnOption → Column
sa_column name column_type options = record {
  name = name;
  column_type = column_type;
  options = options;
}

-- a call of `op`
pub data Operation : Type 0 where
  create_table : (name : String) → List Column → Operation
  create_index : (name table : String) → List String → (unique : Bool) → Operation
  drop_table drop_index : (name : String) → Operation
  execute : (statement : String) → Operation

pub record Migration : Type 0 where
  pub revision : String
  pub down_revision : Option String
  pub upgrade : List Operation
  pub downgrade : List Operation

module _ {Database Failure : Type 0} (op : Operation → Exec Database Failure (Unit {0})) where
  -- the body of an `upgrade` or a `downgrade`
  unfoldable pub run_operations : List Operation → Exec Database Failure (Unit {0})
  run_operations [] = pure tt
  run_operations (o ∷ operations) = let rest = run_operations operations in op o >> rest

  -- the upgrades of migrations, in their order
  unfoldable pub upgrade_all : List Migration → Exec Database Failure (Unit {0})
  upgrade_all [] = pure tt
  upgrade_all (m ∷ migrations) =
      let rest = upgrade_all migrations in run_operations m.upgrade >> rest

  -- their downgrades, from the last to the first
  unfoldable pub downgrade_all : List Migration → Exec Database Failure (Unit {0})
  downgrade_all [] = pure tt
  downgrade_all (m ∷ migrations) =
      let rest = downgrade_all migrations in rest >> run_operations m.downgrade
