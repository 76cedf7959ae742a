-- ===== src/Pool/Client.antt =====
-- gateway/internal/grpc/client.go: the calls on one processor connection. The gRPC streams are an
-- argument; a timeout is one of their errors.
pub mod Health
use vkr.Prelude.{Bool, true, false, List, [], ◌∷◌, ◌||◌, if◌then◌else◌}
use vkr.Prelude.Text.{Text, str, eq_text, ltb_text}
use vkr.Prelude.Result.{Result, ok, err, ◌>>=◌}
use vkr.Media.{MediaChunk, ProcessedChunk, StatsResponse}
use vkr.Pool.{ProcessorClient, ProcessorPool}

-- The generated client: a stream is opened with the value of `memory-mode` in its metadata.
pub record Transport (F32 F64 : Type 0) : Type 1 where
  pub Stream : Type 0
  pub process_media_stream : ProcessorClient → Text → Result Stream
  pub send : MediaChunk F32 → Stream → Result Stream
  pub close_send : Stream → Result Stream
  pub recv : Stream → Result ProcessedChunk
  pub get_stats : ProcessorClient → Result (StatsResponse F64)

unfoldable pub normalize_memory_mode : Text → Text
normalize_memory_mode mode =
    if eq_text mode (str "heap") || eq_text mode (str "no_arena")
    then str "no_arena"
    else str "arena"

module _ {F32 F64 : Type 0} (t : Transport F32 F64) where
  open t use {process_media_stream, send, close_send, recv}

  unfoldable pub process_single_chunk :
      ProcessorClient → MediaChunk F32 → Text → Result ProcessedChunk
  process_single_chunk c chunk memory_mode = do
    stream ← process_media_stream c (normalize_memory_mode memory_mode)
    sent ← send chunk stream
    closed ← close_send sent
    recv closed

  unfoldable pub get_stats : ProcessorClient → Result (StatsResponse F64)
  get_stats c = t.get_stats c

  -- A map from addresses to booleans, as a list with one entry for each key, in the order of the keys, in
  -- which `encoding/json` writes a map.
  unfoldable pub put : Text → Bool → List (Text × Bool) → List (Text × Bool)
  put k v [] = (k, v) ∷ []
  put k v ((j, w) ∷ m) =
      let rest = put k v m in
      if eq_text j k
      then (k, v) ∷ m
      else if ltb_text k j
      then (k, v) ∷ (j, w) ∷ m
      else (j, w) ∷ rest

  abbrev pub healthy : ProcessorClient → Bool
  healthy c = elim (get_stats c) [ ok stats ↦ true | err e ↦ false ]

  unfoldable pub probe : List ProcessorClient → List (Text × Bool) → List (Text × Bool)
  probe [] results = results
  probe (c ∷ cs) results = probe cs (put c.addr (healthy c) results)

  unfoldable pub health_check : ProcessorPool → List (Text × Bool)
  unfolding probe
  health_check p = probe p.clients []
