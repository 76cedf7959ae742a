-- ===== src/Storage/Runs.antt =====
-- The runs of postgres.go: what the table asks of a row, and what a SELECT gives after an INSERT.
use vkr.Prelude.{
  ◌^◌, ◌≤◌, ◌<◌, All, ◌≡◌, refl, ◌||◌, true, ◌⊎◌, none, List, ◌∷◌, inl, inr, Bool-cases,
}
use vkr.Prelude.Int.{ℤ, pos, ltb_ℤ, Fits}
use vkr.Prelude.Text.{Text, str, eq_text}
use vkr.Prelude.Result.{ok}
use vkr.Storage.{ProcessingRun, Database, normalize_memory_mode, save_processing_run, recent_runs}

-- `CHECK (memory_mode IN ('arena', 'no_arena'))`
abbrev pub IsStorable : {F64 : Type 0} → ProcessingRun F64 → Type 0
IsStorable run = (run.memory_mode ≡ str "arena") ⊎ (run.memory_mode ≡ str "no_arena")

-- What is inserted for a run satisfies the condition.
pub stored-IsStorable :
    {F64 : Type 0} (run : ProcessingRun F64)
    → IsStorable (record run { memory_mode = normalize_memory_mode run.memory_mode })
unfolding normalize_memory_mode
stored-IsStorable run =
    elim (Bool-cases
      (eq_text run.memory_mode (str "heap") || eq_text run.memory_mode (str "no_arena"))) [
        | inl heap ↦ inr (rw heap refl)
        | inr other ↦ inl (rw other refl)
      ]

-- The columns that the code writes are those of the row; `id` and `created_at` are the table's.
abbrev pub IsRowOf : {F64 : Type 0} → ProcessingRun F64 → ProcessingRun F64 → Type 0
IsRowOf run row = row ≡ record run { id = row.id; created_at = row.created_at }

-- Text that PostgreSQL stores, in the characters of ASCII: it holds no NUL.
abbrev pub IsAscii : Text → Type 0
IsAscii s = All (λ b. (1 ≤ b) × (b < 128)) s

-- The values of a run are within the types of their columns.
pub record FitsRow {F64 : Type 0} (run : ProcessingRun F64) : Type 0 where
  pub filter_name : IsAscii run.filter_name
  pub error_message : IsAscii run.error_message
  pub width : Fits (2 ^ 31) run.width
  pub height : Fits (2 ^ 31) run.height
  pub frames_count : Fits (2 ^ 31) run.frames_count

-- A row that satisfies the condition, with values of the columns' types and a user that there is, is
-- inserted, and `ORDER BY created_at DESC` gives it first, where the database answers.
pub record IsRecording {F64 : Type 0} (db : Database F64) : Type 1 where
  -- The user that the foreign key asks for.
  pub HasUser : ℤ → db.State → Type 0
  -- The database answers the statements that follow, and its clock is past the rows of the table.
  pub Answers : db.State → Type 0
  pub accepts :
      (run : ProcessingRun F64) (s : db.State)
      → IsStorable run
      → FitsRow run
      → HasUser run.user_id s
      → Answers s
      → (db.insert_run run s).0 ≡ none
  pub newest :
      (run : ProcessingRun F64) (s : db.State) (limit : ℤ)
      → Answers s
      → (db.insert_run run s).0 ≡ none
      → ltb_ℤ (pos 0) limit ≡ true
      → (row : ProcessingRun F64) × (rest : List (ProcessingRun F64)) × (db.select_runs run.user_id
            limit
            (db.insert_run run s).1
          ≡ ok (row ∷ rest))
        × IsRowOf run row

module _ {F64 : Type 0} (db : Database F64) (laws : IsRecording db) where
  -- `RecentRuns` of the user starts with the run that `SaveProcessingRun` has just saved, its memory mode
  -- normalized, if its values are of the columns' types, its user exists and the database answers.
  pub recent_runs-save_processing_run :
      (run : ProcessingRun F64) (s : db.State)
      → FitsRow run
      → laws.HasUser run.user_id s
      → laws.Answers s
      → (row : ProcessingRun F64) × (rest : List (ProcessingRun F64)) × (recent_runs db run.user_id
            (pos 30)
            (save_processing_run db run s).1
          ≡ ok (row ∷ rest))
        × IsRowOf (record run { memory_mode = normalize_memory_mode run.memory_mode }) row
  unfolding save_processing_run recent_runs
  recent_runs-save_processing_run run s fits there answers =
      let stored = record run { memory_mode = normalize_memory_mode run.memory_mode } in
      let stored_fits : FitsRow stored = record {
        filter_name = fits.filter_name;
        error_message = fits.error_message;
        width = fits.width;
        height = fits.height;
        frames_count = fits.frames_count;
      } in
      laws.newest stored s (pos 30) answers
        (laws.accepts stored s (stored-IsStorable run) stored_fits there answers) refl
