-- ===== src/Pool.antt =====
-- gateway/internal/grpc/client.go: the pool of processor connections. A connection is a number;
-- dialling, closing and the health probe are arguments, since the gRPC library does them.
-- `none` as a whole result is a panic by an index out of range.
pub mod Choice
pub mod Client
pub mod Lifecycle
pub mod Tests
use vkr.Prelude.{
  ℕ, ◌+◌, ◌%◌, ◌^◌, Bool, not, ◌&&◌, Option, none, some, List, [], ◌∷◌, ◌++◌, ◌==◌, if◌then◌else◌,
  length, get_elem?,
}
use vkr.Prelude.Int.{ℤ, pos, negsuc, ltb_ℤ, int32, pos_part}
use vkr.Prelude.Text.{Text, str}
use vkr.Prelude.Result.{Result, ok, err}

-- `conn` may be nil.
pub record ProcessorClient : Type 0 where
  pub conn : Option ℕ
  pub addr : Text

-- `current` is a uint64 and `sticky` an int32, negative for round-robin.
pub record ProcessorPool : Type 0 where
  pub clients : List ProcessorClient
  pub addrs : List Text
  pub current : ℕ
  pub sticky : ℤ

abbrev pub no_clients : Text
no_clients = str "no available clients in pool"

abbrev pub out_of_range : Text
out_of_range = str "processor index out of range"

abbrev found :
    Option ProcessorClient → ProcessorPool → Option (Result ProcessorClient × ProcessorPool)
found none p = none
found (some c) p = some (ok c, p)

-- `atomic.AddUint64(&p.current, 1)`
abbrev pub next : ProcessorPool → ProcessorPool
next p = record p { current = (p.current + 1) % 2 ^ 64 }

-- `s >= 0 && int(s) < len(p.clients)`
unfoldable pub is_sticky : ProcessorPool → Bool
is_sticky p = not (ltb_ℤ p.sticky (pos 0)) && ltb_ℤ p.sticky (pos (length p.clients))

unfoldable pub get : ProcessorPool → Option (Result ProcessorClient × ProcessorPool)
get p =
    if length p.clients == 0
    then some (err no_clients, p)
    else if is_sticky p
    then found (get_elem? p.clients (pos_part p.sticky)) p
    else found (get_elem? p.clients ((next p).current % length p.clients)) (next p)

unfoldable pub count : ProcessorPool → ℕ
count p = length p.clients

abbrev indexed : Option ProcessorClient → Option (Result ProcessorClient)
indexed none = none
indexed (some c) = some (ok c)

unfoldable pub client_at : ProcessorPool → ℤ → Option (Result ProcessorClient)
client_at p i =
    if ltb_ℤ i (pos 0)
    then some (err out_of_range)
    else if ltb_ℤ i (pos (length p.clients))
    then indexed (get_elem? p.clients (pos_part i))
    else some (err out_of_range)

unfoldable pub get_sticky : ProcessorPool → ℤ
get_sticky p = p.sticky

unfoldable pub set_sticky : ProcessorPool → ℤ → Result ProcessorPool
set_sticky p idx =
    if ltb_ℤ idx (pos (length p.clients))
    then (if ltb_ℤ idx (pos 0)
        then ok (record p { sticky = negsuc 0 })
        else ok (record p { sticky = int32 idx }))
    else err out_of_range

-- What closing connections leaves behind: the last error, and the connections that were closed.
pub record Closing : Type 0 where
  pub last_err : Option Text
  pub closed : List ℕ

module _ (close_conn : ℕ → Option Text) where
  -- `if err := client.Close(); err != nil { lastErr = err }`
  abbrev close_client : ProcessorClient → Closing → Closing
  close_client c s = elim c.conn [
    | none ↦ s
    | some conn ↦ elim (close_conn conn) [
      | none ↦ record s { closed = s.closed ++ conn ∷ [] }
      | some e ↦ record { last_err = some e; closed = s.closed ++ conn ∷ [] }
    ]
  ]

  close_all : List ProcessorClient → Closing → Closing
  close_all [] s = s
  close_all (c ∷ cs) s = close_all cs (close_client c s)

  unfoldable pub close : ProcessorPool → ProcessorPool × Closing
  unfolding close_all
  close p =
      (record p { clients = [] }, close_all p.clients (record { last_err = none; closed = [] }))

module _ (dial : Text → Result ℕ) (close_conn : ℕ → Option Text) where
  unfoldable pub new_processor_client : Text → Result ProcessorClient
  new_processor_client addr = elim (dial addr) [
    | ok conn ↦ ok (record { conn = some conn; addr = addr })
    | err e ↦ err e
  ]

  -- The loop over the addresses; on an error the connections made so far are closed.
  connect : List Text → ProcessorPool → Result ProcessorPool × Closing
  connect [] p = (ok p, record { last_err = none; closed = [] })
  connect (addr ∷ addrs) p = elim (new_processor_client addr) [
    | ok c ↦ connect addrs (record p { clients = p.clients ++ c ∷ [] })
    | err e ↦ (err e, (close close_conn p).1)
  ]

  unfoldable pub new_processor_pool : List Text → Result ProcessorPool × Closing
  unfolding connect new_processor_client
  new_processor_pool addrs =
      connect addrs (record { clients = []; addrs = addrs; current = 0; sticky = negsuc 0 })
