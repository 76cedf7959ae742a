-- ===== src/Pool/Tests.antt =====
-- Runs of client.go's pool, and its theorems at concrete inputs.
use vkr.Prelude.{
  ℕ, ◌+◌, ◌%◌, ◌^◌, ◌<◌, ◌≡◌, refl, not, false, Option, none, some, List, [], ◌∷◌, arith, length,
  get_elem?,
}
use vkr.Prelude.Int.{pos, negsuc, ltb_ℤ}
use vkr.Prelude.Text.{Text, str}
use vkr.Prelude.Result.{Result, ok, err}
use vkr.Pool.{
  ProcessorClient, ProcessorPool, is_sticky, get, get_sticky, set_sticky, client_at, close,
  new_processor_pool, out_of_range, no_clients,
}
use vkr.Pool.Choice.{after_gets, got_client, get_fair, get-set_sticky}
use vkr.Pool.Lifecycle.{gets, sets, run, close_lem, run-sticky}

pool : Unit {0}
unfolding get is_sticky set_sticky client_at close new_processor_pool vkr.Pool.Lifecycle.run
    vkr.Pool.Lifecycle.step after_gets get_sticky
pool = tt

abbrev pub client : ℕ → ProcessorClient
client n = record { conn = some n; addr = n ∷ [] }

abbrev pub two : ProcessorPool
two = record {
  clients = client 0 ∷ client 1 ∷ [];
  addrs = (0 ∷ []) ∷ (1 ∷ []) ∷ [];
  current = 0;
  sticky = negsuc 0;
}

-- Dialling answers the first byte of the address, and fails on an empty one.
abbrev pub dial_byte : Text → Result ℕ
dial_byte [] = err (str "no address")
dial_byte (c ∷ s) = ok c

abbrev pub close_quietly : ℕ → Option Text
close_quietly conn = none

-- The counter moves before it is read, so the second client is the first to be served.
round_robin :
    (got_client (get two) ≡ some (client 1))
    × (got_client (get (after_gets 1 two)) ≡ some (client 0))
unfolding pool
round_robin = (refl, refl)

bounds :
    (client_at two (pos 2) ≡ some (err out_of_range))
    × (client_at two (negsuc 0) ≡ some (err out_of_range))
    × (set_sticky two (pos 2) ≡ err out_of_range)
unfolding pool
bounds = (refl, refl, refl)

get_fair_example : (n : ℕ) × (n < 2) × (got_client (get (after_gets n two)) ≡ some (client 0))
unfolding pool
get_fair_example = get_fair two 0 refl (omega arith) (omega arith)

get-set_sticky_example :
    (1 < 2)
    × (after_gets 3 (record two { sticky = pos 1 }) ≡ record two { sticky = pos 1 })
    × (got_client (get (after_gets 3 (record two { sticky = pos 1 }))) ≡ some (client 1))
unfolding pool vkr.Prelude.Int.wrap
get-set_sticky_example = get-set_sticky two _ 1 3 (omega arith) refl
