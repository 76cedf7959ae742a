-- ===== src/Storage/Tests.antt =====
-- A database in memory that keeps what the theorems on postgres.go ask of PostgreSQL.
use vkr.Prelude.{
  ℕ, ◌+◌, ◌≡◌, refl, Option, none, some, List, [], ◌∷◌, arith, if◌then◌else◌, length, Option-cases,
  Bool-cases, ap, inl, inr,
}
use vkr.Prelude.Int.{ℤ, pos}
use vkr.Prelude.Text.{Text, str, eq_text, eq_text_refl, eq_text_iff}
use vkr.Prelude.Result.{Result, ok, err}
use vkr.Auth.{User}
use vkr.Storage.{ProcessingRun, UserRow, Database}
use vkr.Storage.Runs.{IsRecording}
use vkr.Storage.Accounts.{IsRelational, IsDurable}

pub record Memory : Type 0 where
  pub users : List UserRow
  pub sessions : ℕ
  pub runs : List (ProcessingRun ℕ)

unfoldable pub find : Text → List UserRow → Option UserRow
find name [] = none
find name (row ∷ rows) = if eq_text row.username name then some row else find name rows

unfoldable pub insert_user : Text → Text → Memory → Result User × Memory
insert_user name hash s = elim (find name s.users) [
  | some row ↦ (err (str "duplicate key"), s)
  | none ↦
      let id : ℤ = pos (length s.users + 1) in
      (
        ok (record { id = id; username = name }),
        record s { users = record { id = id; username = name; password_hash = hash } ∷ s.users },
      )
]

abbrev to_result : Option UserRow → Result UserRow
to_result none = err (str "sql: no rows in result set")
to_result (some row) = ok row

abbrev pub memory : Database ℕ
memory = record {
  State = Memory;
  insert_user = insert_user;
  select_user = λ name s. to_result (find name s.users);
  insert_session = λ id hash time s. (none, record s { sessions = s.sessions + 1 });
  insert_run = λ run s. (none, record s { runs = run ∷ s.runs });
  select_runs = λ id limit s. ok s.runs;
}

memory-insert_select :
    (name hash : Text) (s t : Memory) (user : User)
    → insert_user name hash s ≡ (ok user, t)
    → (user.username ≡ name)
      × (to_result (find name t.users)
          ≡ ok (record { id = user.id; username = name; password_hash = hash }))
unfolding insert_user find
memory-insert_select name hash s t user e = elim (Option-cases (find name s.users)) [
  | inl free ↦ ground (arith, eq_text_refl name)
  | inr (row, taken) ↦ ground arith
]

memory-insert_unique :
    (name hash : Text) (s : Memory) (row : UserRow)
    → to_result (find name s.users) ≡ ok row
    → (e : Text) × (insert_user name hash s ≡ (err e, s))
unfolding insert_user
memory-insert_unique name hash s row h = (str "duplicate key", ground arith)

pub memory-IsRelational : IsRelational memory
memory-IsRelational = record {
  insert_select = memory-insert_select;
  insert_unique = memory-insert_unique;
  session_users = λ id hash name time s. refl;
}

memory-user_keeps :
    (name other hash : Text) (s : Memory) (row : UserRow)
    → to_result (find name s.users) ≡ ok row
    → to_result (find name (insert_user other hash s).1.users) ≡ ok row
unfolding insert_user find
memory-user_keeps name other hash s row there = elim (Option-cases (find other s.users)) [
  | inl free ↦ elim (Bool-cases (eq_text other name)) [
    | inl taken ↦
        absurd (ground (arith, ap (λ n. find n s.users) ((eq_text_iff other name).0 taken)))
    | inr different ↦ ground (arith, different)
  ]
  | inr (old, taken) ↦ ground (arith, taken)
]

pub memory-IsDurable : IsDurable memory
memory-IsDurable = record {
  user_keeps = memory-user_keeps;
  session_keeps = λ name hash id time s row there. there;
  run_keeps = λ name run s row there. there;
}

abbrev pub memory-IsRecording : IsRecording memory
memory-IsRecording = record {
  HasUser = λ id s. Unit;
  Answers = λ s. Unit;
  accepts = λ run s storable fits there answers. refl;
  newest = λ run s limit answers inserted some_rows. (run, s.runs, refl, refl);
}

abbrev pub empty : Memory
empty = record { users = []; sessions = 0; runs = [] }

abbrev pub bob : User
bob = record { id = pos 1; username = str "bob" }
