-- ===== src/Server/Cream/Refusals.antt =====
-- The requests that multi_thread_server/src/cream.c turns down without reading their keys.
use linux_system.Prelude.{
  ℕ, ◌^◌, ◌<◌, ◌≡◌, refl, ap, ◌∙◌, inl, inr, true, false, ◌||◌, Option, none, some, List, ◌++◌,
  ◌==◌, if◌then◌else◌, Bool-cases, arith,
}
use linux_system.Server.Map.{Hashmap}
use linux_system.Server.Cream.{
  Rio, Memory, RequestHeader, Served, respond, dropped, header, bad_request, unsupported,
  handle_put, handle_get, handle_evict, dispatch, handle_request, response_bytes, bad_key_size,
  bad_value_size, put_code, get_code, evict_code, clear_code,
}
use linux_system.Server.Cream.Service.{
  Channel, request_bytes, handle_request-dispatch, respond-outgoing, respond-incoming,
}

-- The code that turns a request down, by its header alone.
unfoldable pub refusal : RequestHeader → Option ℕ
refusal h =
    if h.request_code == put_code
    then (if bad_key_size h || bad_value_size h then some bad_request else none)
    else if (h.request_code == get_code) || (h.request_code == evict_code)
    then (if bad_key_size h then some bad_request else none)
    else if h.request_code == clear_code
    then none
    else some unsupported

module _ {Conn : Type 0} (rio : Rio Conn) where
  -- Where the handler is one response, so is the request.
  abbrev Responds : Option (Served Conn) → Option Hashmap → Conn → ℕ → Type 0
  Responds o m c code =
      (s : Served Conn) × (o ≡ some s)
      × (s.conn ≡ (respond rio c m (header code 0)).conn)
      × (s.map ≡ m)

  refuse-put :
      (mem : Memory) (m : Option Hashmap) (c : Conn) (h : RequestHeader) (code : ℕ)
      → (h.request_code == put_code) ≡ true
      → (if bad_key_size h || bad_value_size h then some bad_request else none) ≡ some code
      → Responds (dispatch rio mem m c h) m c code
  unfolding dispatch handle_put respond
  refuse-put mem m c h code put e = elim (Bool-cases (bad_key_size h || bad_value_size h)) [
    | inl bad ↦
        let known : bad_request ≡ code = ground arith in
        (
          dropped rio (respond rio c m (header bad_request 0)),
          rw (put, bad) refl,
          ap (λ k. (respond rio c m (header k 0)).conn) known,
          refl,
        )
    | inr good ↦ absurd (ground arith)
  ]

  refuse-key :
      (mem : Memory) (m : Option Hashmap) (c : Conn) (h : RequestHeader) (code : ℕ)
      → (h.request_code == put_code) ≡ false
      → ((h.request_code == get_code) || (h.request_code == evict_code)) ≡ true
      → (if bad_key_size h then some bad_request else none) ≡ some code
      → Responds (dispatch rio mem m c h) m c code
  unfolding dispatch handle_get handle_evict respond
  refuse-key mem m c h code other which e = elim (Bool-cases (bad_key_size h)) [
    | inl bad ↦
        let known : bad_request ≡ code = ground arith in
        (
          dropped rio (respond rio c m (header bad_request 0)),
          ground arith,
          ap (λ k. (respond rio c m (header k 0)).conn) known,
          refl,
        )
    | inr good ↦ absurd (ground arith)
  ]

  refuse-unknown :
      (mem : Memory) (m : Option Hashmap) (c : Conn) (h : RequestHeader) (code : ℕ)
      → (h.request_code == put_code) ≡ false
      → ((h.request_code == get_code) || (h.request_code == evict_code)) ≡ false
      → (if h.request_code == clear_code then none else some unsupported) ≡ some code
      → Responds (dispatch rio mem m c h) m c code
  unfolding dispatch respond
  refuse-unknown mem m c h code other others e = elim (Bool-cases (h.request_code == clear_code)) [
    | inl clear ↦ absurd (ground arith)
    | inr unknown ↦
        let known : unsupported ≡ code = ground arith in
        (
          respond rio c m (header unsupported 0),
          ground arith,
          ap (λ k. (respond rio c m (header k 0)).conn) known,
          refl,
        )
  ]

  dispatch-refusal :
      (mem : Memory) (m : Option Hashmap) (c : Conn) (h : RequestHeader) (code : ℕ)
      → refusal h ≡ some code
      → Responds (dispatch rio mem m c h) m c code
  unfolding refusal
  dispatch-refusal mem m c h code e = elim (Bool-cases (h.request_code == put_code)) [
    | inl put ↦ refuse-put mem m c h code put (rw put at e)
    | inr other ↦
        elim (Bool-cases ((h.request_code == get_code) || (h.request_code == evict_code))) [
          | inl which ↦ refuse-key mem m c h code other which (rw (other, which) at e)
          | inr others ↦ refuse-unknown mem m c h code other others (rw (other, others) at e)
        ]
  ]

  -- A request whose header names an unknown operation, or a key or a value of a length out of
  -- bounds, is answered with that code alone. The map stays as it is, and what follows the header
  -- is not read. On the connection no read or write fails.
  pub handle_request-refusal :
      (ch : Channel rio) (mem : Memory) (m : Option Hashmap) (c : Conn) (h : RequestHeader)
      (code : ℕ) (rest : List ℕ)
      → h.key_size < 2 ^ 32
      → h.value_size < 2 ^ 32
      → ch.incoming c ≡ request_bytes h ++ rest
      → refusal h ≡ some code
      → (s : Served Conn) × (handle_request rio mem m c ≡ some s)
        × (ch.outgoing s.conn ≡ ch.outgoing c ++ response_bytes (header code 0))
        × (ch.incoming s.conn ≡ rest)
        × (s.map ≡ m)
  handle_request-refusal ch mem m c h code rest hk hv sent e =
      let (c₁, first, left, same) = handle_request-dispatch ch mem m c h rest hk hv sent in
      let (s, runs, conn, kept) = dispatch-refusal mem m c₁ h code e in
      (
        s,
        first ∙ runs,
        ap ch.outgoing conn
            ∙ respond-outgoing ch c₁ m (header code 0)
            ∙ ap (λ w. w ++ response_bytes (header code 0)) same,
        ap ch.incoming conn ∙ respond-incoming ch c₁ m (header code 0) ∙ left,
        kept,
      )
