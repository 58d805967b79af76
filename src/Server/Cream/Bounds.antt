-- ===== src/Server/Cream/Bounds.antt =====
-- Which requests multi_thread_server/src/cream.c turns down by their headers, and which it reads on.
use linux_system.Prelude.{
  ℕ, ◌^◌, ◌≤◌, ◌<◌, ◌≡◌, ◌≢◌, ◌⊎◌, refl, ◌∙◌, inl, inr, Bool, true, false, Option, none, some, List,
  [], ◌++◌, append_assoc, if◌then◌else◌, Bool-cases, arith, length,
}
use linux_system.Server.Hash.{is_null}
use linux_system.Server.Map.{Hashmap, MapVal, delete, clear_map}
use linux_system.Server.Map.Valid.{IsValid}
use linux_system.Server.Cream.{
  Rio, Memory, RequestHeader, Served, dropped, header, ok, bad_request, not_found, send_value,
  reply_value, handle_get, handle_evict, handle_clear, dispatch, handle_request, buffer_key,
  response_bytes, bad_key_size,
}
use linux_system.Server.Cream.Service.{
  Channel, request, request_bytes, reads_first, handle_request-dispatch, respond-incoming,
}
use linux_system.Server.Cream.Refusals.{refusal, handle_request-refusal}
use linux_system.Server.Cream.RoundTrip.{dispatch-put, handle_put-stores}

-- A length outside of 1 to `most`.
abbrev pub Outside : ℕ → ℕ → Type 0
Outside most n = (n ≡ 0) ⊎ (most < n)

-- A request by its header and the bytes behind it, with the response code that turns it down, or
-- `none` where its key and value are read. The numbers are those of the protocol.
pub data Verdict : RequestHeader → List ℕ → Option ℕ → Type 0 where
  put_key_out : (k v : ℕ) (body : List ℕ) → Outside 2048 k → Verdict (request 1 k v) body (some 400)
  put_value_out :
      (k v : ℕ) (body : List ℕ) → Outside 4096 v → Verdict (request 1 k v) body (some 400)
  get_key_out : (k v : ℕ) (body : List ℕ) → Outside 2048 k → Verdict (request 2 k v) body (some 400)
  evict_key_out :
      (k v : ℕ) (body : List ℕ) → Outside 2048 k → Verdict (request 4 k v) body (some 400)
  unknown :
      (code k v : ℕ) (body : List ℕ)
      → code ≢ 1
      → code ≢ 2
      → code ≢ 4
      → code ≢ 8
      → Verdict (request code k v) body (some 220)
  put_read :
      (key val : List ℕ)
      → 1 ≤ length key
      → length key ≤ 2048
      → 1 ≤ length val
      → length val ≤ 4096
      → Verdict (request 1 (length key) (length val)) (key ++ val) none
  get_read :
      (key : List ℕ) (v : ℕ)
      → 1 ≤ length key
      → length key ≤ 2048
      → Verdict (request 2 (length key) v) key none
  evict_read :
      (key : List ℕ) (v : ℕ)
      → 1 ≤ length key
      → length key ≤ 2048
      → Verdict (request 4 (length key) v) key none
  clear_read : (k v : ℕ) → Verdict (request 8 k v) [] none

module _ {Conn : Type 0} {rio : Rio Conn} (ch : Channel rio) where
  -- What becomes of a request: the response alone, or the body read.
  abbrev pub Meets : Option ℕ → Hashmap → Conn → List ℕ → List ℕ → Served Conn → Type 0
  Meets (some code) m c body rest s =
      (ch.outgoing s.conn ≡ ch.outgoing c ++ response_bytes (header code 0))
      × (ch.incoming s.conn ≡ body ++ rest)
      × (s.map ≡ some m)
  Meets none m c body rest s = ch.incoming s.conn ≡ rest

  abbrev Ends : Memory → Hashmap → Conn → Option ℕ → List ℕ → List ℕ → Type 0
  Ends mem m c verdict body rest =
      (s : Served Conn) × (handle_request rio mem (some m) c ≡ some s)
      × Meets verdict m c body rest s

  send_value-incoming :
      (o : Option Hashmap) (x : MapVal) (p : Conn × Bool)
      → p.1 ≡ true
      → ch.incoming (send_value rio o x p).conn ≡ ch.incoming p.0
  unfolding send_value
  send_value-incoming o x (c, true) e = (ch.writes c _).1
  send_value-incoming o x (c, false) e = absurd (ground arith)

  reply_value-incoming :
      (c : Conn) (o : Option Hashmap) (x : MapVal)
      → ch.incoming (reply_value rio o x c).conn ≡ ch.incoming c
  unfolding reply_value
  reply_value-incoming c o x = elim (Bool-cases (is_null x.val_base)) [
    | inl gone ↦ rw gone (respond-incoming ch c o (header not_found 0))
    | inr there ↦ rw there (
        send_value-incoming o x _ (ch.writes c (response_bytes (header ok x.val_len))).0
        ∙ (ch.writes c (response_bytes (header ok x.val_len))).1)
  ]

  handle_get-incoming :
      (mem : Memory) (m : Option Hashmap) (c : Conn) (key rest : List ℕ) (v : ℕ)
      → bad_key_size (request 2 (length key) v) ≡ false
      → ch.incoming c ≡ key ++ rest
      → ch.incoming (handle_get rio mem m c (request 2 (length key) v)).conn ≡ rest
  unfolding handle_get
  handle_get-incoming mem m c key rest v good e =
      let (got, left, _) = reads_first ch c key rest e in
      rw (good, got) (reply_value-incoming _ _ _ ∙ left)

  handle_evict-incoming :
      (mem : Memory) (m : Option Hashmap) (c : Conn) (key rest : List ℕ) (v : ℕ)
      → bad_key_size (request 4 (length key) v) ≡ false
      → ch.incoming c ≡ key ++ rest
      → ch.incoming (handle_evict rio mem m c (request 4 (length key) v)).conn ≡ rest
  unfolding handle_evict
  handle_evict-incoming mem m c key rest v good e =
      let (got, left, _) = reads_first ch c key rest e in
      let c₁ = (rio.readn c (length key)).0 in
      rw (good, got)
        (respond-incoming ch c₁ (delete m (buffer_key key mem.key_memory (length key))).self
            (header ok 0)
          ∙ left)

  -- A request of which the header alone is read.
  turned_down :
      (mem : Memory) (m : Hashmap) (c : Conn) (h : RequestHeader) (code : ℕ) (body rest : List ℕ)
      → h.key_size < 2 ^ 32
      → h.value_size < 2 ^ 32
      → ch.incoming c ≡ request_bytes h ++ (body ++ rest)
      → refusal h ≡ some code
      → Ends mem m c (some code) body rest
  turned_down mem m c h code body rest hk hv sent e =
      let (s, runs, out, left, kept) =
        handle_request-refusal rio ch mem (some m) c h code (body ++ rest) hk hv sent e in
      (s, runs, (out, left, kept))

  dispatch-reads :
      (mem : Memory) (m : Option Hashmap) (c : Conn) (k v : ℕ)
      → (dispatch rio mem m c (request 2 k v)
          ≡ some (dropped rio (handle_get rio mem m c (request 2 k v))))
        × (dispatch rio mem m c (request 4 k v)
            ≡ some (dropped rio (handle_evict rio mem m c (request 4 k v))))
        × (dispatch rio mem m c (request 8 k v) ≡ some (dropped rio (handle_clear rio m c)))
  unfolding dispatch
  dispatch-reads mem m c k v = (refl, refl, refl)

  handle_clear-incoming :
      (m : Option Hashmap) (c : Conn) → ch.incoming (handle_clear rio m c).conn ≡ ch.incoming c
  unfolding handle_clear
  handle_clear-incoming m c =
      let o = clear_map m in
      respond-incoming ch c o.self (header (if o.returns then ok else bad_request) 0)

  -- On a connection on which nothing fails and on a valid map, a request ends. A PUT of a key that
  -- has not 1 to 2048 bytes or a value that has not 1 to 4096, and a GET or an EVICT of such a key,
  -- is answered with 400 alone, and an unknown operation with 220; the map stays as it is and what
  -- follows the header is not read. Of every other request exactly the body is read.
  pub handle_request-Meets :
      (mem : Memory) (m : Hashmap) (c : Conn) (h : RequestHeader) (body rest : List ℕ)
      (verdict : Option ℕ)
      → IsValid m
      → h.key_size < 2 ^ 32
      → h.value_size < 2 ^ 32
      → ch.incoming c ≡ request_bytes h ++ (body ++ rest)
      → Verdict h body verdict
      → (s : Served Conn) × (handle_request rio mem (some m) c ≡ some s)
        × Meets verdict m c body rest s
  unfolding refusal
  handle_request-Meets mem m c h body rest verdict v hk hv sent (put_key_out k x body' out) =
      turned_down mem m c (request 1 k x) 400 body rest hk hv sent
        (elim out [ inl e ↦ ground arith | inr e ↦ ground arith ])
  handle_request-Meets mem m c h body rest verdict v hk hv sent (put_value_out k x body' out) =
      turned_down mem m c (request 1 k x) 400 body rest hk hv sent
        (elim out [ inl e ↦ ground arith | inr e ↦ ground arith ])
  handle_request-Meets mem m c h body rest verdict v hk hv sent (get_key_out k x body' out) =
      turned_down mem m c (request 2 k x) 400 body rest hk hv sent
        (elim out [ inl e ↦ ground arith | inr e ↦ ground arith ])
  handle_request-Meets mem m c h body rest verdict v hk hv sent (evict_key_out k x body' out) =
      turned_down mem m c (request 4 k x) 400 body rest hk hv sent
        (elim out [ inl e ↦ ground arith | inr e ↦ ground arith ])
  handle_request-Meets mem m c h body rest verdict v hk hv sent
        (unknown code k x body' n₁ n₂ n₄ n₈) =
      turned_down mem m c (request code k x) 220 body rest hk hv sent (ground arith)
  handle_request-Meets mem m c h body rest verdict v hk hv sent (put_read key val k₁ k₂ v₁ v₂) =
      let (c₁, first, left, _) =
        handle_request-dispatch ch mem (some m) c (request 1 (length key) (length val))
          ((key ++ val) ++ rest) hk hv sent in
      let (s, m', stores, _, _, taken, _) =
        handle_put-stores ch mem c₁ key val rest v (ground arith)
          (left ∙ append_assoc key val rest) in
      (
        dropped rio s,
        first ∙ dispatch-put ch mem (some m) c₁ (request 1 (length key) (length val)) s refl stores,
        taken,
      )
  handle_request-Meets mem m c h body rest verdict v hk hv sent (get_read key x k₁ k₂) =
      let (c₁, first, left, _) =
        handle_request-dispatch ch mem (some m) c (request 2 (length key) x) (key ++ rest) hk hv
          sent in
      (
        dropped rio (handle_get rio mem (some m) c₁ (request 2 (length key) x)),
        first ∙ (dispatch-reads mem (some m) c₁ (length key) x).0,
        handle_get-incoming mem (some m) c₁ key rest x (ground arith) left,
      )
  handle_request-Meets mem m c h body rest verdict v hk hv sent (evict_read key x k₁ k₂) =
      let (c₁, first, left, _) =
        handle_request-dispatch ch mem (some m) c (request 4 (length key) x) (key ++ rest) hk hv
          sent in
      (
        dropped rio (handle_evict rio mem (some m) c₁ (request 4 (length key) x)),
        first ∙ (dispatch-reads mem (some m) c₁ (length key) x).1,
        handle_evict-incoming mem (some m) c₁ key rest x (ground arith) left,
      )
  handle_request-Meets mem m c h body rest verdict v hk hv sent (clear_read k x) =
      let (c₁, first, left, _) =
        handle_request-dispatch ch mem (some m) c (request 8 k x) rest hk hv sent in
      (
        dropped rio (handle_clear rio (some m) c₁),
        first ∙ (dispatch-reads mem (some m) c₁ k x).2,
        handle_clear-incoming (some m) c₁ ∙ left,
      )
