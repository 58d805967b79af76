-- ===== src/Server/Map.antt =====
-- The functions of multi_thread_server/src/hashmap.c, an open-addressing hash map with tombstones.
-- A map pointer `self` is `none` for NULL. Each function is one critical section of `write_lock`,
-- so a call is a step on the map. The lock words themselves and `num_readers`, which every reader
-- gives back, are not kept. The code casts the capacity to `int`: maps of 2 ^ 31 slots or more
-- are out of the model.
pub mod Walk
pub mod Scan
pub mod Overwrite
pub mod Landing
pub mod Find
pub mod Valid
pub mod Store
pub mod Put
pub mod Delete
pub mod Drift
pub mod Clear
pub mod Client
mod Tests
use linux_system.Prelude.{
  ℕ, zero, suc, ◌+◌, ◌-◌, ◌%◌, ◌^◌, Bool, true, false, not, ◌&&◌, ◌||◌, Option, none, some, List,
  [], ◌∷◌, ◌==◌, ltb, if◌then◌else◌, get_or, set, replicate,
}
use linux_system.Server.Hash.{Buffer, is_null, MapKey, same_key}

-- `map_val_t`
pub record MapVal : Type 0 where
  pub val_base : Buffer
  pub val_len : ℕ

-- `map_node_t`
pub record MapNode : Type 0 where
  pub key : MapKey
  pub val : MapVal
  pub tombstone : Bool

-- `hashmap_t`. `destroyed` are the arguments of the calls of `destroy_function`, the latest first.
pub record Hashmap : Type 0 where
  pub capacity : ℕ
  pub size : ℕ
  pub nodes : List MapNode
  pub hash_function : MapKey → ℕ
  pub invalid : Bool
  pub destroyed : List (MapKey × MapVal)

pub data Errno : Type 0 where
  einval enomem : Errno

-- What a call leaves behind: the map, the returned value, and `errno` if the call set it.
pub record Outcome (A : Type 0) : Type 0 where
  pub self : Option Hashmap
  pub returns : A
  pub errno : Option Errno

abbrev pub null_key : MapKey
null_key = record { key_base = none; key_len = 0 }

abbrev pub null_val : MapVal
null_val = record { val_base = none; val_len = 0 }

-- A slot as `calloc` leaves it.
abbrev pub empty_node : MapNode
empty_node = record { key = null_key; val = null_val; tombstone = false }

abbrev failed : {A : Type 0} → Option Hashmap → A → Errno → Outcome A
failed self value e = record { self = self; returns = value; errno = some e }

abbrev done : {A : Type 0} → Hashmap → A → Outcome A
done m value = record { self = some m; returns = value; errno = none }

-- Which allocations and initialisations of `create_map` succeed.
pub record Resources : Type 0 where
  pub map_memory : Bool
  pub write_lock : Bool
  pub fields_lock : Bool
  pub node_memory : Bool

unfoldable pub create_map : ℕ → (MapKey → ℕ) → Resources → Outcome (Unit {0})
create_map capacity hash r =
    if capacity == 0
    then failed none tt einval
    else if r.map_memory && r.write_lock && r.fields_lock && r.node_memory
    then done fresh tt
    else record { self = none; returns = tt; errno = none }
  where
    fresh : Hashmap
    fresh = record {
      capacity = capacity;
      size = 0;
      nodes = replicate capacity empty_node;
      hash_function = hash;
      invalid = false;
      destroyed = [];
    }

pub get_index : Hashmap → MapKey → ℕ
get_index m key = m.hash_function key % m.capacity

-- One slot on, round the end of the array.
pub next_index : ℕ → ℕ → ℕ
next_index capacity index = if index == capacity - 1 then 0 else index + 1

pub slot : List MapNode → ℕ → MapNode
slot nodes index = get_or nodes index empty_node

-- The loop `while(1)` of `put` on fuel; `none` means that it is still running.
pub put_loop : ℕ → ℕ → List MapNode → ℕ → MapKey → MapVal → Option (List MapNode)
put_loop zero capacity nodes index key val = none
put_loop (suc fuel) capacity nodes index key val =
    let tmp = slot nodes index in
    let rest = put_loop fuel capacity nodes (next_index capacity index) key val in
    if is_null tmp.key.key_base || tmp.tombstone
    then some (set nodes index (record { key = key; val = val; tombstone = false }))
    else if same_key key tmp.key
    then some (set nodes index (record tmp { val = val; tombstone = false }))
    else rest

-- The branch of a map that is not full: `size` grows also where the key was there before.
pub put_free : Hashmap → MapKey → MapVal → Option (Outcome Bool)
put_free m key val = elim (put_loop m.capacity m.capacity m.nodes (get_index m key) key val) [
  | none ↦ none
  | some nodes ↦ some (done (record m { nodes = nodes; size = m.size + 1 }) true)
]

-- The branch of a full map: the entry at the key's index gives way.
pub put_evict : Hashmap → MapKey → MapVal → Outcome Bool
put_evict m key val =
    let index = get_index m key in
    let tmp = slot m.nodes index in
    done
      (record m {
        nodes = set m.nodes index (record { key = key; val = val; tombstone = false });
        destroyed = (tmp.key, tmp.val) ∷ m.destroyed;
      })
      true

pub put : Option Hashmap → MapKey → MapVal → Bool → Option (Outcome Bool)
put none key val force = some (failed none false einval)
put (some m) key val force =
    if m.invalid || is_null key.key_base || is_null val.val_base
    then some (failed (some m) false einval)
    else if (m.capacity == m.size) && not force
    then some (failed (some m) false enomem)
    else if ltb m.size m.capacity
    then put_free m key val
    else some (put_evict m key val)

-- The loop of `get_true_index`, on the rounds left; `none` is the index -1.
pub index_loop : ℕ → ℕ → List MapNode → ℕ → MapKey → Option ℕ
index_loop zero capacity nodes index key = none
index_loop (suc n) capacity nodes index key =
    let tmp = slot nodes index in
    let rest = index_loop n capacity nodes (next_index capacity index) key in
    if tmp.tombstone
    then rest
    else if is_null tmp.key.key_base
    then none
    else if same_key key tmp.key
    then some index
    else rest

pub get_true_index : Option Hashmap → MapKey → Outcome (Option ℕ)
get_true_index none key = failed none none einval
get_true_index (some m) key =
    if m.invalid || is_null key.key_base
    then failed (some m) none einval
    else done m (index_loop m.capacity m.capacity m.nodes (get_index m key) key)

-- The loop of `get`, on the rounds left.
pub get_loop : ℕ → ℕ → List MapNode → ℕ → MapKey → MapVal
get_loop zero capacity nodes index key = null_val
get_loop (suc n) capacity nodes index key =
    let tmp = slot nodes index in
    let rest = get_loop n capacity nodes (next_index capacity index) key in
    if is_null tmp.key.key_base
    then null_val
    else if tmp.tombstone
    then rest
    else if same_key key tmp.key
    then tmp.val
    else rest

pub get : Option Hashmap → MapKey → Outcome MapVal
get none key = failed none null_val einval
get (some m) key =
    if m.invalid || is_null key.key_base
    then failed (some m) null_val einval
    else done m (get_loop m.capacity m.capacity m.nodes (get_index m key) key)

-- `size--` on `uint32_t`.
abbrev pub dec32 : ℕ → ℕ
dec32 n = (n + 2 ^ 32 - 1) % 2 ^ 32

-- Behind the tests of `delete`: the slot becomes a tombstone, and its old content is returned.
pub bury : Hashmap → ℕ → Outcome MapNode
bury m index =
    let old = slot m.nodes index in
    done
      (record m {
        nodes = set m.nodes index (record old { tombstone = true });
        size = dec32 m.size;
      })
      old

pub delete : Option Hashmap → MapKey → Outcome MapNode
delete none key = failed none empty_node einval
delete (some m) key =
    if m.invalid || is_null key.key_base || is_null (get (some m) key).returns.val_base
    then failed (some m) empty_node einval
    else elim (get_true_index (some m) key).returns [
      | none ↦ failed (some m) empty_node einval
      | some index ↦ bury m index
    ]

-- One round of `clear_map`, and its loop over the array.
abbrev is_used : MapNode → Bool
is_used n = not (is_null n.key.key_base) && not (is_null n.val.val_base)

abbrev cleared : MapNode → MapNode
cleared n = if is_used n then record { key = null_key; val = null_val; tombstone = true } else n

pub clear_nodes : List MapNode → List MapNode
clear_nodes [] = []
clear_nodes (n ∷ ns) = cleared n ∷ clear_nodes ns

pub clear_destroyed : List MapNode → List (MapKey × MapVal) → List (MapKey × MapVal)
clear_destroyed [] log = log
clear_destroyed (n ∷ ns) log = clear_destroyed ns (if is_used n then (n.key, n.val) ∷ log else log)

pub clear_map : Option Hashmap → Outcome Bool
clear_map none = failed none false einval
clear_map (some m) =
    if m.invalid
    then failed (some m) false einval
    else done
        (record m {
          nodes = clear_nodes m.nodes;
          size = 0;
          destroyed = clear_destroyed m.nodes m.destroyed;
        })
        true

-- `free(self->nodes)` leaves no slots. The function returns false also where it succeeds.
pub invalidate_map : Option Hashmap → Outcome Bool
invalidate_map none = failed none false einval
invalidate_map (some m) =
    if m.invalid
    then failed (some m) false einval
    else done (record m { nodes = []; invalid = true }) false
