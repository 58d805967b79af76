-- ===== src/Server/Cream.antt =====
-- The request handlers of multi_thread_server/src/cream.c. The robust I/O of csapp.c is a
-- parameter, the record `Rio`. `Malloc` gives memory that holds what it held before. The handlers
-- share the global `hashmap`, here an argument and a part of the result.
pub mod Requests
pub mod Threads
pub mod Service
pub mod RoundTrip
pub mod Refusals
pub mod Bounds
mod Tests
use linux_system.Prelude.{
  ℕ, zero, suc, ◌+◌, ◌*◌, ◌/◌, ◌%◌, ◌^◌, Bool, true, false, ◌&&◌, ◌||◌, Option, none, some, List,
  [], ◌∷◌, ◌++◌, ◌==◌, ltb, if◌then◌else◌, length, get_or, take, drop,
}
use linux_system.Server.Hash.{Buffer, is_null, bytes, MapKey, jenkins_one_at_a_time_hash}
use linux_system.Server.Map.{
  Hashmap, MapVal, Outcome, Resources, create_map, put, get, delete, clear_map,
}
use linux_system.Server.Queue.{Queue, create_queue}

-- `Rio_readn` gives at most `n` bytes, or `none` for -1; `Rio_writen` gives false for -1.
pub record Rio (Conn : Type 0) : Type 0 where
  pub readn : Conn → ℕ → Conn × Option (List ℕ)
  pub writen : Conn → List ℕ → Conn × Bool

-- What the memory of the buffers and of the request header holds before it is set.
pub record Memory : Type 0 where
  pub key_memory : List ℕ
  pub value_memory : List ℕ
  pub header_memory : List ℕ

-- `request_header_t` and `response_header_t`
pub record RequestHeader : Type 0 where
  pub request_code : ℕ
  pub key_size : ℕ
  pub value_size : ℕ

pub record ResponseHeader : Type 0 where
  pub response_code : ℕ
  pub value_size : ℕ

-- `request_codes`, `response_codes` and the bounds of cream.h
abbrev pub put_code : ℕ
put_code = 0x01

abbrev pub get_code : ℕ
get_code = 0x02

abbrev pub evict_code : ℕ
evict_code = 0x04

abbrev pub clear_code : ℕ
clear_code = 0x08

abbrev pub ok : ℕ
ok = 200

abbrev pub unsupported : ℕ
unsupported = 220

abbrev pub bad_request : ℕ
bad_request = 400

abbrev pub not_found : ℕ
not_found = 404

abbrev pub max_key_size : ℕ
max_key_size = 2048

abbrev pub max_value_size : ℕ
max_value_size = 4096

-- A `uint32_t` in memory, and the packed headers.
unfoldable pub u32_bytes : ℕ → List ℕ
u32_bytes x = x % 256 ∷ x / 256 % 256 ∷ x / 65536 % 256 ∷ x / 16777216 % 256 ∷ []

pub response_bytes : ResponseHeader → List ℕ
unfolding u32_bytes
response_bytes r = u32_bytes r.response_code ++ u32_bytes r.value_size

pub u32_at : List ℕ → ℕ → ℕ
u32_at b i =
    get_or b i 0
    + get_or b (i + 1) 0 * 256
    + get_or b (i + 2) 0 * 65536
    + get_or b (i + 3) 0 * 16777216

pub header_of : List ℕ → RequestHeader
unfolding u32_at
header_of b = record { request_code = get_or b 0 0; key_size = u32_at b 1; value_size = u32_at b 5 }

-- The buffer after a read of the bytes `got` to its start.
pub filled : List ℕ → List ℕ → List ℕ
filled got memory = got ++ drop (length got) memory

-- The returned `int` of a handler: 0 or -1.
pub data Status : Type 0 where
  zero_status minus_one : Status

pub record Served (Conn : Type 0) : Type 0 where
  pub conn : Conn
  pub map : Option Hashmap
  pub status : Status

abbrev pub bad_key_size : RequestHeader → Bool
bad_key_size h = ltb h.key_size 1 || ltb max_key_size h.key_size

abbrev pub bad_value_size : RequestHeader → Bool
bad_value_size h = ltb h.value_size 1 || ltb max_value_size h.value_size

abbrev pub header : ℕ → ℕ → ResponseHeader
header code size = record { response_code = code; value_size = size }

abbrev pub buffer_key : List ℕ → List ℕ → ℕ → MapKey
buffer_key got memory n = record { key_base = some (filled got memory); key_len = n }

abbrev pub buffer_val : List ℕ → List ℕ → ℕ → MapVal
buffer_val got memory n = record { val_base = some (filled got memory); val_len = n }

module _ {Conn : Type 0} (rio : Rio Conn) where
  -- `Rio_writen` of a response header, and the end of the handler.
  pub respond : Conn → Option Hashmap → ResponseHeader → Served Conn
  unfolding response_bytes
  respond c m r =
      let (c', sent) = rio.writen c (response_bytes r) in
      record { conn = c'; map = m; status = if sent then zero_status else minus_one }

  abbrev pub broken : Conn → Option Hashmap → Served Conn
  broken c m = record { conn = c; map = m; status = minus_one }

  -- The part of `handle_put` behind its reads; `none` means that `put` does not end.
  pub store_pair : Option Hashmap → MapKey → MapVal → Conn → Option (Served Conn)
  unfolding respond
  store_pair m key val c = elim (put m key val true) [
    | none ↦ none
    | some o ↦ some (respond c o.self (header (if o.returns then ok else bad_request) 0))
  ]

  pub handle_put : Memory → Option Hashmap → Conn → RequestHeader → Option (Served Conn)
  unfolding respond store_pair
  handle_put mem m c h =
      if bad_key_size h || bad_value_size h
      then some (respond c m (header bad_request 0))
      else let (c₁, got_key) = rio.readn c h.key_size in
        elim got_key [
          | none ↦ some (broken c₁ m)
          | some k ↦
              let (c₂, got_val) = rio.readn c₁ h.value_size in
              elim got_val [
                | none ↦ some (broken c₂ m)
                | some v ↦
                    store_pair m (buffer_key k mem.key_memory h.key_size)
                      (buffer_val v mem.value_memory h.value_size) c₂
              ]
        ]

  -- The part of `handle_get` behind its read: the header, and then the bytes of the value.
  pub send_value : Option Hashmap → MapVal → Conn × Bool → Served Conn
  send_value m val (c, false) = broken c m
  send_value m val (c, true) =
      let (c', sent) = rio.writen c (take val.val_len (bytes val.val_base)) in
      record { conn = c'; map = m; status = if sent then zero_status else minus_one }

  pub reply_value : Option Hashmap → MapVal → Conn → Served Conn
  unfolding respond response_bytes send_value
  reply_value m val c =
      if is_null val.val_base
      then respond c m (header not_found 0)
      else send_value m val (rio.writen c (response_bytes (header ok val.val_len)))

  pub handle_get : Memory → Option Hashmap → Conn → RequestHeader → Served Conn
  unfolding respond reply_value
  handle_get mem m c h =
      if bad_key_size h
      then respond c m (header bad_request 0)
      else let (c₁, got_key) = rio.readn c h.key_size in
        elim got_key [
          | none ↦ broken c₁ m
          | some k ↦
              let o = get m (buffer_key k mem.key_memory h.key_size) in
              reply_value o.self o.returns c₁
        ]

  pub handle_evict : Memory → Option Hashmap → Conn → RequestHeader → Served Conn
  unfolding respond
  handle_evict mem m c h =
      if bad_key_size h
      then respond c m (header bad_request 0)
      else let (c₁, got_key) = rio.readn c h.key_size in
        elim got_key [
          | none ↦ broken c₁ m
          | some k ↦
              respond c₁ (delete m (buffer_key k mem.key_memory h.key_size)).self (header ok 0)
        ]

  pub handle_clear : Option Hashmap → Conn → Served Conn
  unfolding respond
  handle_clear m c =
      let o = clear_map m in respond c o.self (header (if o.returns then ok else bad_request) 0)

  -- `handle_request` drops the results of the handlers.
  abbrev pub dropped : Served Conn → Served Conn
  dropped s = record s { status = zero_status }

  pub dispatch : Memory → Option Hashmap → Conn → RequestHeader → Option (Served Conn)
  unfolding respond handle_put handle_get handle_evict handle_clear
  dispatch mem m c h =
      if h.request_code == put_code
      then elim (handle_put mem m c h) [ none ↦ none | some s ↦ some (dropped s) ]
      else if h.request_code == get_code
      then some (dropped (handle_get mem m c h))
      else if h.request_code == evict_code
      then some (dropped (handle_evict mem m c h))
      else if h.request_code == clear_code
      then some (dropped (handle_clear m c))
      else some (respond c m (header unsupported 0))

  pub handle_request : Memory → Option Hashmap → Conn → Option (Served Conn)
  unfolding dispatch header_of filled
  handle_request mem m c =
      let (c₁, got) = rio.readn c 9 in
      elim got [
        | none ↦ some (broken c₁ m)
        | some b ↦ dispatch mem m c₁ (header_of (filled b mem.header_memory))
      ]

-- The loop of `thread` over the connections that it takes from the queue, each of which it closes;
-- `none` means that a request does not end. `handle_request` returns to it whether it failed, and
-- it goes on.
pub thread :
    {Conn : Type 0}
    → Rio Conn
    → Memory
    → Option Hashmap
    → List Conn
    → Option (Option Hashmap × List Conn)
unfolding handle_request
thread rio mem m [] = some (m, [])
thread rio mem m (c ∷ cs) = elim (handle_request rio mem m c) [
  | none ↦ none
  | some s ↦ elim (thread rio mem s.map cs) [
    | none ↦ none
    | some (m', closed) ↦ some (m', s.conn ∷ closed)
  ]
]

-- `server_init`, with what the memory, the semaphore and the mutex of the queue give.
pub server_init : ℕ → Bool → Bool → Bool → Resources → Option Queue × Option Hashmap
server_init max_entries memory semaphore mutex r = (
  create_queue memory semaphore mutex,
  (create_map max_entries jenkins_one_at_a_time_hash r).self,
)
