-- ===== src/Server/Cream/RoundTrip.antt =====
-- A PUT and a later GET to multi_thread_server/src/cream.c, byte by byte.
use linux_system.Prelude.{
  ℕ, zero, suc, ◌≤◌, ◌<◌, ◌≡◌, refl, ap, ◌∙◌, inl, inr, Bool, true, false, ◌||◌, Option, none, some,
  List, [], ◌∷◌, ◌++◌, ltb, Bool-cases, arith, length, take, drop, get_or, take-append_self,
}
use linux_system.Server.Hash.{is_null, bytes, MapKey, same_key, memcmp_zero}
use linux_system.Server.Map.{Hashmap, MapVal, put, get}
use linux_system.Server.Map.Valid.{IsValid, view}
use linux_system.Server.Map.Put.{put_free-Reads, put_evict-Reads}
use linux_system.Server.Cream.{
  Rio, Memory, RequestHeader, Served, respond, dropped, header, ok, not_found, store_pair,
  handle_put, send_value, reply_value, handle_get, dispatch, handle_request, buffer_key, buffer_val,
  response_bytes, bad_key_size, bad_value_size, max_key_size, max_value_size, filled, put_code,
  get_code,
}
use linux_system.Server.Cream.Service.{
  Channel, request, request_bytes, reads_first, respond-outgoing, respond-incoming,
  handle_request-dispatch,
}

-- `put` with `force` ends with success, and the value is read under every spelling of the key.
pub put_forced :
    {m : Hashmap} (k : MapKey) (x : MapVal)
    → IsValid m
    → is_null k.key_base ≡ false
    → is_null x.val_base ≡ false
    → (m' : Hashmap) × (put (some m) k x true
        ≡ some (record { self = some m'; returns = true; errno = none }))
      × ((q : MapKey) → is_null q.key_base ≡ false → same_key k q ≡ true → view m' q ≡ x)
put_forced {m} k x v named valued = elim (Bool-cases (ltb m.size m.capacity)) [
  | inl room ↦
      let (m', runs, _, _, _, reads) = put_free-Reads k x true v named valued (ground arith) in
      (m', runs, λ q named_q same. ground (arith, reads q named_q))
  | inr full ↦
      let (m', runs, _, _, _, reads) =
        put_evict-Reads k x v named valued (ground (arith, v.fits)) in
      (m', runs, λ q named_q same. (reads q named_q).0 same)
]

get_or-append_left : (p a : List ℕ) (i : ℕ) → i < length p → get_or (p ++ a) i 0 ≡ get_or p i 0
get_or-append_left [] a i lt = absurd (omega arith)
get_or-append_left (x ∷ p) a zero lt = refl
get_or-append_left (x ∷ p) a (suc i) lt = get_or-append_left p a i (omega arith)

memcmp_zero-prefix :
    (p a b : List ℕ) (n : ℕ) → n ≤ length p → memcmp_zero (p ++ a) (p ++ b) n ≡ true
unfolding memcmp_zero
memcmp_zero-prefix p a b zero le = refl
memcmp_zero-prefix p a b (suc n) le = ground (
  arith,
  memcmp_zero-prefix p a b n (omega arith),
  get_or-append_left p a n (omega arith),
  get_or-append_left p b n (omega arith),
)

-- The bytes of a key in two buffers make one key.
same_key-buffer_key :
    (key a b : List ℕ)
    → same_key (buffer_key key a (length key)) (buffer_key key b (length key)) ≡ true
unfolding same_key filled
same_key-buffer_key key a b =
    ground (arith, memcmp_zero-prefix key (drop (length key) a) (drop (length key) b) (length key))

module _ {Conn : Type 0} {rio : Rio Conn} (ch : Channel rio) where
  pub dispatch-put :
      (mem : Memory) (m : Option Hashmap) (c : Conn) (h : RequestHeader) (s : Served Conn)
      → h.request_code ≡ put_code
      → handle_put rio mem m c h ≡ some s
      → dispatch rio mem m c h ≡ some (dropped rio s)
  unfolding dispatch
  dispatch-put mem m c h s e runs = ground arith

  pub dispatch-get :
      (mem : Memory) (m : Option Hashmap) (c : Conn) (h : RequestHeader)
      → h.request_code ≡ get_code
      → dispatch rio mem m c h ≡ some (dropped rio (handle_get rio mem m c h))
  unfolding dispatch
  dispatch-get mem m c h e = ground arith

  -- `handle_put` where the sizes are in their bounds and the bytes are there.
  pub handle_put-stores :
      (mem : Memory) {m : Hashmap} (c : Conn) (key val rest : List ℕ)
      → IsValid m
      → (bad_key_size (request put_code (length key) (length val))
          || bad_value_size (request put_code (length key) (length val)))
        ≡ false
      → ch.incoming c ≡ key ++ (val ++ rest)
      → (s : Served Conn) × (m' : Hashmap) × (handle_put rio mem
            (some m)
            c
            (request put_code (length key) (length val))
          ≡ some s)
        × (s.map ≡ some m')
        × (ch.outgoing s.conn ≡ ch.outgoing c ++ response_bytes (header ok 0))
        × (ch.incoming s.conn ≡ rest)
        × ((q : MapKey)
            → is_null q.key_base ≡ false
            → same_key (buffer_key key mem.key_memory (length key)) q ≡ true
            → view m' q ≡ buffer_val val mem.value_memory (length val))
  handle_put-stores mem {m} c key val rest v good e =
      let (got_k, left_k, same_k) = reads_first ch c key (val ++ rest) e in
      let c₁ = (rio.readn c (length key)).0 in
      let (got_v, left_v, same_v) = reads_first ch c₁ val rest left_k in
      let c₂ = (rio.readn c₁ (length val)).0 in
      let k = buffer_key key mem.key_memory (length key) in
      let x = buffer_val val mem.value_memory (length val) in
      let (m', runs, reads) = put_forced k x v refl refl in
      (
        respond rio c₂ (some m') (header ok 0),
        m',
        (unfold handle_put store_pair in ground arith),
        (unfold respond in refl),
        respond-outgoing ch c₂ (some m') (header ok 0)
            ∙ ap (λ o. o ++ response_bytes (header ok 0)) (same_v ∙ same_k),
        respond-incoming ch c₂ (some m') (header ok 0) ∙ left_v,
        reads,
      )

  send_value-outgoing :
      (o : Option Hashmap) (x : MapVal) (p : Conn × Bool)
      → p.1 ≡ true
      → ch.outgoing (send_value rio o x p).conn
        ≡ ch.outgoing p.0 ++ take x.val_len (bytes x.val_base)
  unfolding send_value
  send_value-outgoing o x (c, true) e = (ch.writes c (take x.val_len (bytes x.val_base))).2
  send_value-outgoing o x (c, false) e = absurd (ground arith)

  -- `reply_value` of a value that is there, and of none.
  reply_value-outgoing :
      (c : Conn) (o : Option Hashmap) (x : MapVal)
      → is_null x.val_base ≡ false
      → ch.outgoing (reply_value rio o x c).conn
        ≡ (ch.outgoing c ++ response_bytes (header ok x.val_len))
          ++ take x.val_len (bytes x.val_base)
  unfolding reply_value
  reply_value-outgoing c o x there = rw there (
      send_value-outgoing o x _ (ch.writes c (response_bytes (header ok x.val_len))).0
      ∙ ap (λ w. w ++ take x.val_len (bytes x.val_base))
          (ch.writes c (response_bytes (header ok x.val_len))).2)

  reply_value-not_found :
      (c : Conn) (o : Option Hashmap) (x : MapVal)
      → is_null x.val_base ≡ true
      → ch.outgoing (reply_value rio o x c).conn
        ≡ ch.outgoing c ++ response_bytes (header not_found 0)
  unfolding reply_value
  reply_value-not_found c o x gone = rw gone (respond-outgoing ch c o (header not_found 0))

  -- `handle_get` where the size is in its bounds and the key is there.
  handle_get-replies :
      (mem : Memory) (m : Hashmap) (c : Conn) (key rest : List ℕ)
      → bad_key_size (request get_code (length key) 0) ≡ false
      → ch.incoming c ≡ key ++ rest
      → let s = handle_get rio mem (some m) c (request get_code (length key) 0) in
        let x = view m (buffer_key key mem.key_memory (length key)) in
        (is_null x.val_base ≡ false
          → ch.outgoing s.conn
            ≡ (ch.outgoing c ++ response_bytes (header ok x.val_len))
              ++ take x.val_len (bytes x.val_base))
        × (is_null x.val_base ≡ true
            → ch.outgoing s.conn ≡ ch.outgoing c ++ response_bytes (header not_found 0))
  unfolding handle_get
  handle_get-replies mem m c key rest good e =
      let (got, _, same) = reads_first ch c key rest e in
      let c₁ = (rio.readn c (length key)).0 in
      let o = get (some m) (buffer_key key mem.key_memory (length key)) in
      rw (good, got)
        (
          λ there.
              reply_value-outgoing c₁ o.self o.returns there
              ∙ ap
                  (λ w.
                    (w ++ response_bytes (header ok o.returns.val_len))
                    ++ take o.returns.val_len (bytes o.returns.val_base))
                  same,
          λ gone.
              reply_value-not_found c₁ o.self o.returns gone
              ∙ ap (λ w. w ++ response_bytes (header not_found 0)) same,
        )

  take-filled : (b memory : List ℕ) → take (length b) (filled b memory) ≡ b
  unfolding filled
  take-filled b memory = take-append_self b (drop (length b) memory)

  -- A PUT of a key and a value of allowed lengths over one connection is answered with OK, and a
  -- later GET of the key over another, before anything else is served, with OK, the length of the
  -- value and its bytes: whatever stood in the server's buffers, and though the map was full. On
  -- neither connection does a read or a write fail.
  pub put-get_round_trip :
      (mem mem' : Memory) (m : Hashmap) (c c' : Conn) (key val rest rest' : List ℕ)
      → IsValid m
      → 1 ≤ length key
      → length key ≤ max_key_size
      → 1 ≤ length val
      → length val ≤ max_value_size
      → ch.incoming c
        ≡ request_bytes (request put_code (length key) (length val)) ++ (key ++ (val ++ rest))
      → ch.incoming c' ≡ request_bytes (request get_code (length key) 0) ++ (key ++ rest')
      → (s s' : Served Conn) × (handle_request rio mem (some m) c ≡ some s)
        × (ch.outgoing s.conn ≡ ch.outgoing c ++ response_bytes (header ok 0))
        × (handle_request rio mem' s.map c' ≡ some s')
        × (ch.outgoing s'.conn ≡ (ch.outgoing c' ++ response_bytes (header ok (length val))) ++ val)
  put-get_round_trip mem mem' m c c' key val rest rest' v k1 k2 v1 v2 sent asked =
      let put_header = request put_code (length key) (length val) in
      let get_header = request get_code (length key) 0 in
      let (c₁, first, left, same) =
        handle_request-dispatch ch mem (some m) c put_header (key ++ (val ++ rest)) (omega arith)
          (omega arith) sent in
      let (s, m', stores, left_map, out, _, reads) =
        handle_put-stores mem c₁ key val rest v (ground arith) left in
      let (c₂, second, left', same') =
        handle_request-dispatch ch mem' (some m') c' get_header (key ++ rest') (omega arith)
          (omega arith) asked in
      let there =
        reads (buffer_key key mem'.key_memory (length key)) refl
          (same_key-buffer_key key mem.key_memory mem'.key_memory) in
      let (replies, _) = handle_get-replies mem' m' c₂ key rest' (ground arith) left' in
      let found =
        replies (ap (λ (x : MapVal). is_null x.val_base) there)
        ∙ ap
            (λ (x : MapVal).
              (ch.outgoing c₂ ++ response_bytes (header ok x.val_len))
              ++ take x.val_len (bytes x.val_base))
            there in
      (
        dropped rio s,
        dropped rio (handle_get rio mem' (some m') c₂ get_header),
        first ∙ dispatch-put mem (some m) c₁ put_header s refl stores,
        out ∙ ap (λ w. w ++ response_bytes (header ok 0)) same,
        ap (λ o. handle_request rio mem' o c') left_map
            ∙ second
            ∙ dispatch-get mem' (some m') c₂ get_header refl,
        found
            ∙ ap
                (λ w.
                  (w ++ response_bytes (header ok (length val)))
                  ++ take (length val) (filled val mem.value_memory))
                same'
            ∙ ap (λ w. (ch.outgoing c' ++ response_bytes (header ok (length val))) ++ w)
                (take-filled val mem.value_memory),
      )
