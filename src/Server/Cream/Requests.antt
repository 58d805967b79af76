-- ===== src/Server/Cream/Requests.antt =====
-- Any request to the handlers of multi_thread_server/src/cream.c, over any connection: reads and
-- writes may fail or stop short, and the bytes may be anything.
use linux_system.Prelude.{
  ◌≡◌, refl, sym, ap, ◌∙◌, inl, inr, Bool, true, false, ◌||◌, Option, some, ◌==◌, if◌then◌else◌,
  Bool-cases, Option-cases, arith,
}
use linux_system.Server.Hash.{is_null, MapKey}
use linux_system.Server.Map.{Hashmap, MapVal, Outcome}
use linux_system.Server.Map.Valid.{IsValid}
use linux_system.Server.Map.Put.{put-false_iff}
use linux_system.Server.Map.Clear.{clear_map-IsEmpty}
use linux_system.Server.Map.Client.{self_of, put_call-IsValid, delete_call-IsValid, get-self}
use linux_system.Server.Cream.{
  Rio, Memory, RequestHeader, ResponseHeader, Served, respond, broken, dropped, header, ok,
  bad_request, store_pair, handle_put, send_value, reply_value, handle_get, handle_evict,
  handle_clear, dispatch, handle_request, buffer_key, buffer_val, bad_key_size, bad_value_size,
  unsupported, header_of, filled, put_code, get_code, evict_code, clear_code,
}

-- A handler has ended and left a valid map.
abbrev pub Keeps : {Conn : Type 0} → Option (Served Conn) → Type 0
Keeps {Conn} o = (s : Served Conn) × (o ≡ some s) × (m : Hashmap) × (s.map ≡ some m) × IsValid m

module _ {Conn : Type 0} (rio : Rio Conn) {m : Hashmap} (v : IsValid m) where
  respond-map : (c : Conn) (o : Option Hashmap) (r : ResponseHeader) → (respond rio c o r).map ≡ o
  unfolding respond
  respond-map c o r = refl

  store_pair-Keeps :
      (key : MapKey) (val : MapVal) (c : Conn) → Keeps (store_pair rio (some m) key val c)
  unfolding store_pair respond
  store_pair-Keeps key val c =
      let (o, runs, _, _) = put-false_iff key val true v in
      let (m', left, valid) = put_call-IsValid key val true v in
      (
        respond rio c o.self (header (if o.returns then ok else bad_request) 0),
        ground arith,
        m',
        ap self_of (sym runs) ∙ left,
        valid,
      )

  handle_put-Keeps :
      (mem : Memory) (c : Conn) (h : RequestHeader) → Keeps (handle_put rio mem (some m) c h)
  unfolding handle_put respond
  handle_put-Keeps mem c h = elim (Bool-cases (bad_key_size h || bad_value_size h)) [
    | inl bad ↦ (respond rio c (some m) (header bad_request 0), ground arith, m, refl, v)
    | inr good ↦ elim (Option-cases (rio.readn c h.key_size).1) [
      | inl e ↦ (broken rio (rio.readn c h.key_size).0 (some m), ground arith, m, refl, v)
      | inr (k, e) ↦
          let c₁ = (rio.readn c h.key_size).0 in
          elim (Option-cases (rio.readn c₁ h.value_size).1) [
            | inl f ↦ (broken rio (rio.readn c₁ h.value_size).0 (some m), ground arith, m, refl, v)
            | inr (x, f) ↦
                let (s, runs, m', left, valid) =
                  store_pair-Keeps (buffer_key k mem.key_memory h.key_size)
                    (buffer_val x mem.value_memory h.value_size) (rio.readn c₁ h.value_size).0 in
                (s, ground arith, m', left, valid)
          ]
    ]
  ]

  send_value-map : (val : MapVal) (p : Conn × Bool) → (send_value rio (some m) val p).map ≡ some m
  unfolding send_value
  send_value-map val (c, true) = refl
  send_value-map val (c, false) = refl

  reply_value-map :
      (o : Option Hashmap) (val : MapVal) (c : Conn)
      → o ≡ some m
      → (reply_value rio o val c).map ≡ some m
  unfolding reply_value
  reply_value-map o val c e = elim (Bool-cases (is_null val.val_base)) [
    | inl n ↦ ground (arith, respond-map c o)
    | inr s ↦ rw (e, s) (send_value-map val _)
  ]

  handle_get-map :
      (mem : Memory) (c : Conn) (h : RequestHeader) → (handle_get rio mem (some m) c h).map ≡ some m
  unfolding handle_get respond
  handle_get-map mem c h = elim (Bool-cases (bad_key_size h)) [
    | inl bad ↦ rw bad refl
    | inr good ↦ elim (Option-cases (rio.readn c h.key_size).1) [
      | inl e ↦ rw (good, e) refl
      | inr (k, e) ↦
          rw (good, e) (reply_value-map _ _ _ (get-self m (buffer_key k mem.key_memory h.key_size)))
    ]
  ]

  handle_evict-Keeps :
      (mem : Memory) (c : Conn) (h : RequestHeader)
      → (m' : Hashmap) × ((handle_evict rio mem (some m) c h).map ≡ some m') × IsValid m'
  unfolding handle_evict respond
  handle_evict-Keeps mem c h = elim (Bool-cases (bad_key_size h)) [
    | inl bad ↦ (m, rw bad refl, v)
    | inr good ↦ elim (Option-cases (rio.readn c h.key_size).1) [
      | inl e ↦ (m, rw (good, e) refl, v)
      | inr (k, e) ↦
          let (m', left, valid) = delete_call-IsValid (buffer_key k mem.key_memory h.key_size) v in
          (m', rw (good, e) (left), valid)
    ]
  ]

  handle_clear-Keeps :
      (c : Conn) → (m' : Hashmap) × ((handle_clear rio (some m) c).map ≡ some m') × IsValid m'
  unfolding handle_clear respond
  handle_clear-Keeps c =
      let (m', runs, e, _) = clear_map-IsEmpty v in
      (m', ap {B = Option Hashmap} (λ (o : Outcome Bool). o.self) runs, e.valid)

  dispatch-Keeps :
      (mem : Memory) (c : Conn) (h : RequestHeader) → Keeps (dispatch rio mem (some m) c h)
  unfolding dispatch respond
  dispatch-Keeps mem c h = elim (Bool-cases (h.request_code == put_code)) [
    | inl e ↦
        let (s, runs, m', left, valid) = handle_put-Keeps mem c h in
        (dropped rio s, ground arith, m', left, valid)
    | inr n ↦ elim (Bool-cases (h.request_code == get_code)) [
      | inl e ↦ (
        dropped rio (handle_get rio mem (some m) c h),
        ground arith,
        m,
        handle_get-map mem c h,
        v,
      )
      | inr n' ↦ elim (Bool-cases (h.request_code == evict_code)) [
        | inl e ↦
            let (m', left, valid) = handle_evict-Keeps mem c h in
            (dropped rio (handle_evict rio mem (some m) c h), ground arith, m', left, valid)
        | inr n'' ↦ elim (Bool-cases (h.request_code == clear_code)) [
          | inl e ↦
              let (m', left, valid) = handle_clear-Keeps c in
              (dropped rio (handle_clear rio (some m) c), ground arith, m', left, valid)
          | inr n3 ↦ (respond rio c (some m) (header unsupported 0), ground arith, m, refl, v)
        ]
      ]
    ]
  ]

  -- Every request ends, whatever the connection sends and wherever it fails, and leaves a valid
  -- map.
  pub handle_request-Keeps : (mem : Memory) (c : Conn) → Keeps (handle_request rio mem (some m) c)
  unfolding handle_request
  handle_request-Keeps mem c = elim (Option-cases (rio.readn c 9).1) [
    | inl e ↦ (broken rio (rio.readn c 9).0 (some m), ground arith, m, refl, v)
    | inr (b, e) ↦
        let (s, runs, m', left, valid) =
          dispatch-Keeps mem (rio.readn c 9).0 (header_of (filled b mem.header_memory)) in
        (s, ground arith, m', left, valid)
  ]
