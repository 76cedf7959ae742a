-- ===== src/Storage/Connection.antt =====
-- gateway/internal/storage/postgres.go: `Open`, `Close` and `Migrate`. The driver of database/sql is an
-- argument, and what is done to its handles is a list of events.
pub mod Live
use vkr.Prelude.{ℕ, Option, none, some, List, [], ◌∷◌, ◌++◌}
use vkr.Prelude.Text.{Text}
use vkr.Prelude.Result.{Result, ok, err}

-- `sql.Open` and `PingContext` at a given attempt, `DB.Close`, and `ExecContext` of the schema.
pub record Driver : Type 0 where
  pub sql_open : ℕ → Result ℕ
  pub ping : ℕ → ℕ → Option Text
  pub close_db : ℕ → Option Text
  pub exec_schema : ℕ → Option Text

-- A handle was opened, or closed.
pub data Event : Type 0 where
  opened_db closed_db : ℕ → Event

-- `Store.db`, which may be nil.
pub record Store : Type 0 where
  pub db : Option ℕ

module _ (d : Driver) where
  unfoldable pub open_store : ℕ → Result Store × List Event
  open_store attempt = elim (d.sql_open attempt) [
    | err e ↦ (err e, [])
    | ok db ↦ elim (d.ping attempt db) [
      | some e ↦ (err e, opened_db db ∷ closed_db db ∷ [])
      | none ↦ (ok (record { db = some db }), opened_db db ∷ [])
    ]
  ]

  -- `Close` of a store that may be nil.
  unfoldable pub close_store : Option Store → Option Text × List Event
  close_store none = (none, [])
  close_store (some s) = elim s.db [
    | none ↦ (none, [])
    | some db ↦ (d.close_db db, closed_db db ∷ [])
  ]

  -- `none` is the panic of a nil database.
  unfoldable pub migrate : Store → Option (Option Text)
  migrate s = elim s.db [ none ↦ none | some db ↦ some (d.exec_schema db) ]
