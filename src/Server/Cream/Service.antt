-- ===== src/Server/Cream/Service.antt =====
-- Whole requests to multi_thread_server/src/cream.c over connections on which nothing fails: the
-- bytes on the wire.
use linux_system.Prelude.{
  ℕ, ◌+◌, ◌*◌, ◌/◌, ◌%◌, ◌^◌, ◌≤◌, ◌<◌, ◌≡◌, ap, ap₂, ◌∙◌, true, Option, some, List, ◌∷◌, ◌++◌,
  arith, length, take, drop, take-append_self, drop-append_self, length-append,
}
use linux_system.Server.Map.{Hashmap}
use linux_system.Server.Cream.{
  Rio, Memory, RequestHeader, ResponseHeader, respond, dispatch, handle_request, u32_bytes, u32_at,
  response_bytes, header_of, filled,
}

-- A connection on which nothing fails: what the client has sent and is not yet read, and what the
-- server has written.
pub record Channel {Conn : Type 0} (rio : Rio Conn) : Type 0 where
  pub incoming : Conn → List ℕ
  pub outgoing : Conn → List ℕ
  pub reads :
      (c : Conn) (n : ℕ)
      → n ≤ length (incoming c)
      → ((rio.readn c n).1 ≡ some (take n (incoming c)))
        × (incoming (rio.readn c n).0 ≡ drop n (incoming c))
        × (outgoing (rio.readn c n).0 ≡ outgoing c)
  pub writes :
      (c : Conn) (b : List ℕ)
      → ((rio.writen c b).1 ≡ true)
        × (incoming (rio.writen c b).0 ≡ incoming c)
        × (outgoing (rio.writen c b).0 ≡ outgoing c ++ b)

abbrev pub request : ℕ → ℕ → ℕ → RequestHeader
request code k v = record { request_code = code; key_size = k; value_size = v }

-- A packed `request_header_t`.
unfoldable pub request_bytes : RequestHeader → List ℕ
unfolding u32_bytes
request_bytes h = h.request_code ∷ (u32_bytes h.key_size ++ u32_bytes h.value_size)

u32_round_trip :
    (x : ℕ)
    → x < 2 ^ 32
    → x % 256 + x / 256 % 256 * 256 + x / 65536 % 256 * 65536 + x / 16777216 % 256 * 16777216 ≡ x
u32_round_trip x lt = omega arith

-- A header is read back from its bytes, whatever the memory held.
pub header_of-request_bytes :
    (h : RequestHeader) (memory : List ℕ)
    → h.key_size < 2 ^ 32
    → h.value_size < 2 ^ 32
    → header_of (filled (request_bytes h) memory) ≡ h
unfolding header_of filled request_bytes u32_at u32_bytes
header_of-request_bytes h memory hk hv =
    ap₂ (request h.request_code) (u32_round_trip h.key_size hk) (u32_round_trip h.value_size hv)

module _ {Conn : Type 0} {rio : Rio Conn} (ch : Channel rio) where
  -- A read of the bytes that the client sent first.
  pub reads_first :
      (c : Conn) (b rest : List ℕ)
      → ch.incoming c ≡ b ++ rest
      → ((rio.readn c (length b)).1 ≡ some b)
        × (ch.incoming (rio.readn c (length b)).0 ≡ rest)
        × (ch.outgoing (rio.readn c (length b)).0 ≡ ch.outgoing c)
  reads_first c b rest e =
      let (got, left, same) =
        ch.reads c (length b) (omega (arith, ap length e, length-append b rest)) in
      (
        got ∙ ap (λ i. some (take (length b) i)) e ∙ ap some (take-append_self b rest),
        left ∙ ap (λ i. drop (length b) i) e ∙ drop-append_self b rest,
        same,
      )

  pub respond-outgoing :
      (c : Conn) (o : Option Hashmap) (r : ResponseHeader)
      → ch.outgoing (respond rio c o r).conn ≡ ch.outgoing c ++ response_bytes r
  unfolding respond
  respond-outgoing c o r = (ch.writes c (response_bytes r)).2

  pub respond-incoming :
      (c : Conn) (o : Option Hashmap) (r : ResponseHeader)
      → ch.incoming (respond rio c o r).conn ≡ ch.incoming c
  unfolding respond
  respond-incoming c o r = (ch.writes c (response_bytes r)).1

  -- The header of a request is read, and the rest of what the client sent is left.
  pub handle_request-dispatch :
      (mem : Memory) (m : Option Hashmap) (c : Conn) (h : RequestHeader) (rest : List ℕ)
      → h.key_size < 2 ^ 32
      → h.value_size < 2 ^ 32
      → ch.incoming c ≡ request_bytes h ++ rest
      → (c₁ : Conn) × (handle_request rio mem m c ≡ dispatch rio mem m c₁ h)
        × (ch.incoming c₁ ≡ rest)
        × (ch.outgoing c₁ ≡ ch.outgoing c)
  unfolding handle_request request_bytes u32_bytes
  handle_request-dispatch mem m c h rest hk hv e =
      let (got, left, same) = reads_first c (request_bytes h) rest e in
      (
        (rio.readn c 9).0,
        ground (arith, header_of-request_bytes h mem.header_memory hk hv),
        left,
        same,
      )
