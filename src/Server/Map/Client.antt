-- ===== src/Server/Map/Client.antt =====
-- Any sequence of calls of put, get, delete and clear_map of
-- multi_thread_server/src/hashmap.c on one map.
use linux_system.Prelude.{
  ◌≡◌, refl, ap, ◌∙◌, inl, inr, Bool, true, false, Option, none, some, List, [], ◌∷◌, arith, ltb,
  Bool-cases,
}
use linux_system.Server.Hash.{is_null, MapKey}
use linux_system.Server.Map.{Hashmap, MapVal, Outcome, put, get, delete, clear_map}
use linux_system.Server.Map.Valid.{IsValid, view}
use linux_system.Server.Map.Put.{refuses, put_refused, put_free-Reads, put_evict-Reads}
use linux_system.Server.Map.Delete.{delete-Removes, delete-missing}
use linux_system.Server.Map.Clear.{clear_map-IsEmpty}

-- One call with its arguments.
pub data Call : Type 0 where
  put_call : MapKey → MapVal → Bool → Call
  get_call : MapKey → Call
  delete_call : MapKey → Call
  clear_call : Call

abbrev pub self_of : {A : Type 0} → Option (Outcome A) → Option Hashmap
self_of none = none
self_of (some o) = o.self

-- The map after a call; `none` stands for a call that does not end.
pub call : Hashmap → Call → Option Hashmap
call m (put_call k x force) = self_of (put (some m) k x force)
call m (get_call k) = (get (some m) k).self
call m (delete_call k) = (delete (some m) k).self
call m clear_call = (clear_map (some m)).self

pub run : Option Hashmap → List Call → Option Hashmap
run none cs = none
run (some m) [] = some m
run (some m) (c ∷ cs) = run (call m c) cs

pub put_call-IsValid :
    {m : Hashmap} (k : MapKey) (x : MapVal) (force : Bool)
    → IsValid m
    → (m' : Hashmap) × (self_of (put (some m) k x force) ≡ some m') × IsValid m'
put_call-IsValid {m} k x force v = elim (Bool-cases (refuses m k x force)) [
  | inl refused ↦
      let (o, runs, value, same) = put_refused k x force v refused in (m, rw runs same, v)
  | inr accepted ↦
      let named : is_null k.key_base ≡ false = ground arith in
      let valued : is_null x.val_base ≡ false = ground arith in
      elim (Bool-cases (ltb m.size m.capacity)) [
        | inl room ↦
            let (m', runs, valid, size, log, reads) =
              put_free-Reads k x force v named valued (ground arith) in
            (m', rw runs, valid)
        | inr full ↦
            let forced : force ≡ true = ground (arith, v.fits) in
            let (m', runs, valid, size, log, reads) =
              put_evict-Reads k x v named valued (ground (arith, v.fits)) in
            (m', rw (forced, runs), valid)
      ]
]

get-null :
    (m : Hashmap) (k : MapKey) → is_null k.key_base ≡ true → is_null (view m k).val_base ≡ true
unfolding get
get-null m k z = ground arith

pub delete_call-IsValid :
    {m : Hashmap} (k : MapKey)
    → IsValid m
    → (m' : Hashmap) × ((delete (some m) k).self ≡ some m') × IsValid m'
delete_call-IsValid {m} k v = elim (Bool-cases (is_null (view m k).val_base)) [
  | inl gone ↦ (m, rw (delete-missing k gone), v)
  | inr there ↦ elim (Bool-cases (is_null k.key_base)) [
    | inl z ↦ cc (get-null m k z)
    | inr named ↦ let (m', node, runs, r) = delete-Removes k v named there in (m', rw runs, r.valid)
  ]
]

pub get-self : (m : Hashmap) (k : MapKey) → (get (some m) k).self ≡ some m
unfolding get
get-self m k = ground arith

-- Every call ends and keeps the invariant.
call-IsValid :
    {m : Hashmap} (c : Call) → IsValid m → (m' : Hashmap) × (call m c ≡ some m') × IsValid m'
unfolding call
call-IsValid (put_call k x force) v = put_call-IsValid k x force v
call-IsValid {m} (get_call k) v = (m, get-self m k, v)
call-IsValid (delete_call k) v = delete_call-IsValid k v
call-IsValid clear_call v =
    let (m', runs, e, log) = clear_map-IsEmpty v in
    (m', ap {B = Option Hashmap} (λ (o : Outcome Bool). o.self) runs, e.valid)

-- Whatever a client calls, with whatever arguments, on a valid map, every call ends and the map
-- stays valid. In particular no sequence of calls makes the loop of `put` run for ever.
pub run-IsValid :
    (cs : List Call) {m : Hashmap}
    → IsValid m
    → (m' : Hashmap) × (run (some m) cs ≡ some m') × IsValid m'
unfolding run
run-IsValid [] {m} v = (m, refl, v)
run-IsValid (c ∷ cs) v =
    let (m', runs, valid) = call-IsValid c v in
    let (m'', rest, last) = run-IsValid cs valid in
    (m'', ap (λ (o : Option Hashmap). run o cs) runs ∙ rest, last)
