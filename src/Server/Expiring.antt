-- ===== src/Server/Expiring.antt =====
-- The functions of multi_thread_server/src/extracredit.c, the hash map whose entries expire. A map
-- pointer is `none` for NULL, and a call is one critical section, as in Server.Map. `clock` gives
-- what clock() returns, one reading for each round of a loop, and `per_second` is CLOCKS_PER_SEC.
-- The type `clock_t` does not overflow in the model; a reading below `start` counts as no time.
pub mod Fresh
pub mod Stale
mod Tests
use linux_system.Prelude.{
  ℕ, zero, suc, ◌+◌, ◌-◌, ◌/◌, ◌%◌, Bool, true, false, not, ◌&&◌, ◌||◌, Option, none, some, List,
  [], ◌∷◌, ◌==◌, ltb, if◌then◌else◌, get_or, set, replicate,
}
use linux_system.Server.Hash.{is_null, MapKey, same_key}
use linux_system.Server.Map.{
  MapVal, Errno, einval, enomem, Resources, null_key, null_val, next_index, dec32,
}

-- `TTL` of const.h
abbrev pub ttl : ℕ
ttl = 5

-- `map_node_t` and `hashmap_t` of extracredit.h
pub record TimedNode : Type 0 where
  pub key : MapKey
  pub val : MapVal
  pub start : ℕ
  pub tombstone : Bool

pub record TimedMap : Type 0 where
  pub capacity : ℕ
  pub size : ℕ
  pub nodes : List TimedNode
  pub hash_function : MapKey → ℕ
  pub invalid : Bool
  pub destroyed : List (MapKey × MapVal)

pub record TimedOutcome (A : Type 0) : Type 0 where
  pub self : Option TimedMap
  pub returns : A
  pub errno : Option Errno

abbrev pub empty_timed : TimedNode
empty_timed = record { key = null_key; val = null_val; start = 0; tombstone = false }

abbrev timed_failed : {A : Type 0} → Option TimedMap → A → Errno → TimedOutcome A
timed_failed self value e = record { self = self; returns = value; errno = some e }

abbrev timed_done : {A : Type 0} → TimedMap → A → TimedOutcome A
timed_done m value = record { self = some m; returns = value; errno = none }

pub create_timed : ℕ → (MapKey → ℕ) → Resources → TimedOutcome (Unit {0})
create_timed capacity hash r =
    if capacity == 0
    then timed_failed none tt einval
    else if r.map_memory && r.write_lock && r.fields_lock && r.node_memory
    then timed_done
        (record {
          capacity = capacity;
          size = 0;
          nodes = replicate capacity empty_timed;
          hash_function = hash;
          invalid = false;
          destroyed = [];
        })
        tt
    else record { self = none; returns = tt; errno = none }

pub timed_index : TimedMap → MapKey → ℕ
timed_index m key = m.hash_function key % m.capacity

pub timed_slot : List TimedNode → ℕ → TimedNode
timed_slot nodes index = get_or nodes index empty_timed

-- Only `put` into a map with room sets `start`.
pub timed_put_loop : ℕ → ℕ → ℕ → List TimedNode → ℕ → MapKey → MapVal → Option (List TimedNode)
unfolding timed_slot
timed_put_loop zero now capacity nodes index key val = none
timed_put_loop (suc fuel) now capacity nodes index key val =
    let tmp = timed_slot nodes index in
    let rest = timed_put_loop fuel now capacity nodes (next_index capacity index) key val in
    if is_null tmp.key.key_base || tmp.tombstone
    then some (set nodes index (record { key = key; val = val; start = now; tombstone = false }))
    else if same_key key tmp.key
    then some (set nodes index (record tmp { val = val; start = now; tombstone = false }))
    else rest

pub timed_put_free : ℕ → TimedMap → MapKey → MapVal → Option (TimedOutcome Bool)
unfolding timed_put_loop timed_index
timed_put_free now m key val =
    elim (timed_put_loop m.capacity now m.capacity m.nodes (timed_index m key) key val) [
      | none ↦ none
      | some nodes ↦ some (timed_done (record m { nodes = nodes; size = m.size + 1 }) true)
    ]

-- The entry that takes the place of another keeps its `start`.
pub timed_put_evict : TimedMap → MapKey → MapVal → TimedOutcome Bool
unfolding timed_slot timed_index
timed_put_evict m key val =
    let index = timed_index m key in
    let tmp = timed_slot m.nodes index in
    timed_done
      (record m {
        nodes = set m.nodes index (record tmp { key = key; val = val; tombstone = false });
        destroyed = (tmp.key, tmp.val) ∷ m.destroyed;
      })
      true

pub timed_put : ℕ → Option TimedMap → MapKey → MapVal → Bool → Option (TimedOutcome Bool)
unfolding timed_put_free timed_put_evict
timed_put now none key val force = some (timed_failed none false einval)
timed_put now (some m) key val force =
    if m.invalid || is_null key.key_base || is_null val.val_base
    then some (timed_failed (some m) false einval)
    else if (m.capacity == m.size) && not force
    then some (timed_failed (some m) false enomem)
    else if ltb m.size m.capacity
    then timed_put_free now m key val
    else some (timed_put_evict m key val)

pub timed_index_loop : ℕ → ℕ → List TimedNode → ℕ → MapKey → Option ℕ
unfolding timed_slot
timed_index_loop zero capacity nodes index key = none
timed_index_loop (suc n) capacity nodes index key =
    let tmp = timed_slot nodes index in
    let rest = timed_index_loop n capacity nodes (next_index capacity index) key in
    if tmp.tombstone
    then rest
    else if is_null tmp.key.key_base
    then none
    else if same_key key tmp.key
    then some index
    else rest

pub timed_true_index : Option TimedMap → MapKey → TimedOutcome (Option ℕ)
unfolding timed_index_loop timed_index
timed_true_index none key = timed_failed none none einval
timed_true_index (some m) key =
    if m.invalid || is_null key.key_base
    then timed_failed (some m) none einval
    else timed_done m (timed_index_loop m.capacity m.capacity m.nodes (timed_index m key) key)

-- `(clock() - tmp->start)/CLOCKS_PER_SEC>TTL`
unfoldable pub is_expired : ℕ → ℕ → TimedNode → Bool
is_expired per_second now n = ltb ttl ((now - n.start) / per_second)

-- The loop of `get`, on the rounds left: it makes each expired slot that it passes a tombstone,
-- and leaves `size` alone.
pub timed_get_loop : ℕ → (ℕ → ℕ) → ℕ → ℕ → List TimedNode → ℕ → MapKey → List TimedNode × MapVal
unfolding timed_slot is_expired
timed_get_loop per_second clock zero capacity nodes index key = (nodes, null_val)
timed_get_loop per_second clock (suc n) capacity nodes index key =
    let tmp = timed_slot nodes index in
    let next = next_index capacity index in
    let dead = set nodes index (record tmp { tombstone = true }) in
    let past = timed_get_loop per_second clock n capacity dead next key in
    let rest = timed_get_loop per_second clock n capacity nodes next key in
    if is_null tmp.key.key_base
    then (nodes, null_val)
    else if tmp.tombstone || is_expired per_second (clock n) tmp
    then past
    else if same_key key tmp.key
    then (nodes, tmp.val)
    else rest

pub timed_get : ℕ → (ℕ → ℕ) → Option TimedMap → MapKey → TimedOutcome MapVal
unfolding timed_get_loop timed_index
timed_get per_second clock none key = timed_failed none null_val einval
timed_get per_second clock (some m) key =
    if m.invalid || is_null key.key_base
    then timed_failed (some m) null_val einval
    else let (nodes, val) =
        timed_get_loop per_second clock m.capacity m.capacity m.nodes (timed_index m key) key in
      timed_done (record m { nodes = nodes }) val

-- Behind the tests of `delete`, on the map that its `get` left.
pub timed_bury : TimedMap → ℕ → TimedOutcome TimedNode
unfolding timed_slot
timed_bury m index =
    let old = timed_slot m.nodes index in
    timed_done
      (record m {
        nodes = set m.nodes index (record old { tombstone = true });
        size = dec32 m.size;
      })
      old

pub timed_bury_found : Option TimedMap → MapKey → TimedOutcome TimedNode
unfolding timed_true_index timed_bury
timed_bury_found none key = timed_failed none empty_timed einval
timed_bury_found (some m) key = elim (timed_true_index (some m) key).returns [
  | none ↦ timed_failed (some m) empty_timed einval
  | some index ↦ timed_bury m index
]

pub timed_delete : ℕ → (ℕ → ℕ) → Option TimedMap → MapKey → TimedOutcome TimedNode
unfolding timed_get timed_bury_found
timed_delete per_second clock none key = timed_failed none empty_timed einval
timed_delete per_second clock (some m) key =
    let found = timed_get per_second clock (some m) key in
    if m.invalid || is_null key.key_base || is_null found.returns.val_base
    then timed_failed found.self empty_timed einval
    else timed_bury_found found.self key

abbrev is_used_slot : TimedNode → Bool
is_used_slot n = not (is_null n.key.key_base) && not (is_null n.val.val_base)

pub timed_clear_nodes : List TimedNode → List TimedNode
timed_clear_nodes [] = []
timed_clear_nodes (n ∷ ns) =
    (if is_used_slot n then record n { key = null_key; val = null_val; tombstone = true } else n)
    ∷ timed_clear_nodes ns

pub timed_clear_log : List TimedNode → List (MapKey × MapVal) → List (MapKey × MapVal)
timed_clear_log [] log = log
timed_clear_log (n ∷ ns) log =
    timed_clear_log ns (if is_used_slot n then (n.key, n.val) ∷ log else log)

pub timed_clear : Option TimedMap → TimedOutcome Bool
unfolding timed_clear_nodes timed_clear_log
timed_clear none = timed_failed none false einval
timed_clear (some m) =
    if m.invalid
    then timed_failed (some m) false einval
    else timed_done
        (record m {
          nodes = timed_clear_nodes m.nodes;
          size = 0;
          destroyed = timed_clear_log m.nodes m.destroyed;
        })
        true

pub timed_invalidate : Option TimedMap → TimedOutcome Bool
timed_invalidate none = timed_failed none false einval
timed_invalidate (some m) =
    if m.invalid
    then timed_failed (some m) false einval
    else timed_done (record m { nodes = []; invalid = true }) false
