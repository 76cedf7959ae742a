-- ===== src/Http/Admin/Processors.antt =====
-- What `HandleHealth` and `HandleAdminProcessorsStats` of gateway/internal/http/handlers.go say of the
-- processors.
use vkr.Prelude.{ℕ, Bool, true, ◌&&◌, ◌+◌, some, List, [], ◌∷◌, ◌++◌}
use vkr.Prelude.Text.{Text}
use vkr.Prelude.Result.{ok}
use vkr.Pool.{ProcessorClient}
use vkr.Pool.Client.{healthy}
use vkr.Http.{ProcStats, Env, Handler, Input}
use vkr.Http.Admin.{row}

module _ {F32 F64 : Type 0} (env : Env F32 F64) (h : Handler) (input : Input) where
  -- A row for each client, numbered from `i`.
  abbrev pub rows_of : ℕ → List ProcessorClient → List (ProcStats F64)
  rows_of i [] = []
  rows_of i (c ∷ cs) = row env h input i (some (ok c)) ++ rows_of (i + 1) cs

  abbrev pub all_answer : List ProcessorClient → Bool
  all_answer [] = true
  all_answer (c ∷ cs) = healthy env.transport c && all_answer cs
