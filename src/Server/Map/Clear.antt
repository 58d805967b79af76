-- ===== src/Server/Map/Clear.antt =====
-- create_map, clear_map and invalidate_map of multi_thread_server/src/hashmap.c.
use linux_system.Prelude.{
  ℕ, zero, suc, ◌^◌, ◌<◌, ◌≡◌, refl, ap, ◌∙◌, inl, inr, Bool, true, false, ◌&&◌, none, some, List,
  [], ◌∷◌, ◌++◌, append_assoc, arith, ◌==◌, if◌then◌else◌, length, replicate, Bool-cases,
  length-replicate, get_or-replicate,
}
use mathlib.Core.List.{reverse, reverse-append}
use linux_system.Server.Hash.{is_null, MapKey, same_key}
use linux_system.Server.Map.{
  Hashmap, MapNode, MapVal, einval, empty_node, null_val, Resources, create_map, slot, get, put,
  delete, clear_map, clear_nodes, clear_destroyed, cleared, is_used, invalidate_map,
}
use linux_system.Server.Map.Walk.{walk_all, tally-eq-zero}
use linux_system.Server.Map.Scan.{is_live, absent, absent-path, get_loop-absent}
use linux_system.Server.Map.Valid.{IsValid, view, view-get_loop}

walk_all-everywhere :
    (p : MapNode → Bool) (r capacity : ℕ) (nodes : List MapNode) (i : ℕ)
    → ((x : ℕ) → p (slot nodes x) ≡ true)
    → walk_all p r capacity nodes i ≡ true
unfolding walk_all
walk_all-everywhere p zero capacity nodes i h = refl
walk_all-everywhere p (suc r) capacity nodes i h =
    rw (h i, walk_all-everywhere p r capacity nodes _ h)

-- A map with no live slot is valid and reads as empty.
pub record IsEmpty (m : Hashmap) : Type 0 where
  pub valid : IsValid m
  pub size : m.size ≡ 0
  pub reads : (k : MapKey) → is_null k.key_base ≡ false → view m k ≡ null_val

dead-IsEmpty :
    (m : Hashmap)
    → m.invalid ≡ false
    → 0 < m.capacity
    → m.capacity < 2 ^ 31
    → length m.nodes ≡ m.capacity
    → m.size ≡ 0
    → ((a b : MapKey) → same_key a b ≡ true → m.hash_function a ≡ m.hash_function b)
    → ((x : ℕ) → is_live (slot m.nodes x) ≡ false)
    → IsEmpty m
dead-IsEmpty m usable room small width none_counted congr dead =
    let gone : (r i : ℕ) (k : MapKey) → absent r m.capacity m.nodes i k ≡ true =
      λ r i k. walk_all-everywhere _ r m.capacity m.nodes i (λ x. ground (arith, dead x)) in
    record {
      valid = record {
        usable = usable;
        room = room;
        small = small;
        width = width;
        counted = omega (arith, tally-eq-zero is_live m.nodes (λ x _. dead x));
        fits = omega arith;
        values = λ x live. cc (dead x);
        hash_congr = congr;
        paths = λ k. absent-path m.capacity m.capacity m.nodes _ k (gone m.capacity _ k);
      };
      size = none_counted;
      reads = λ k named.
          view-get_loop m k usable named
          ∙ get_loop-absent m.capacity m.capacity m.nodes _ k (gone m.capacity _ k);
    }

-- `create_map` with a capacity that is not 0 and below 2 ^ 31, with a hash that respects the
-- comparison of keys and where every allocation succeeds, returns an empty map that is valid.
-- Where one fails, or with the capacity 0, it returns NULL.
pub create_map-IsEmpty :
    (capacity : ℕ) (hash : MapKey → ℕ) (r : Resources)
    → capacity < 2 ^ 31
    → ((a b : MapKey) → same_key a b ≡ true → hash a ≡ hash b)
    → let o = create_map capacity hash r in
      ((capacity == 0) ≡ false
        → (r.map_memory && r.write_lock && r.fields_lock && r.node_memory) ≡ true
        → (m : Hashmap) × (o.self ≡ some m) × (m.capacity ≡ capacity) × IsEmpty m)
      × ((capacity == 0) ≡ true → (o.self ≡ none) × (o.errno ≡ some einval))
      × ((r.map_memory && r.write_lock && r.fields_lock && r.node_memory) ≡ false → o.self ≡ none)
unfolding create_map
create_map-IsEmpty capacity hash r small congr = (
  λ room granted.
      let m : Hashmap = record {
        capacity = capacity;
        size = 0;
        nodes = replicate capacity empty_node;
        hash_function = hash;
        invalid = false;
        destroyed = [];
      } in
      (
        m,
        rw (room, granted),
        refl,
        dead-IsEmpty m refl (ground arith) small (length-replicate capacity empty_node) refl congr
            (λ x. unfold slot in rw (get_or-replicate capacity x empty_node)),
      ),
  λ zero_capacity. (rw zero_capacity, rw zero_capacity),
  λ refused. elim (Bool-cases (capacity == 0)) [ inl e ↦ rw e | inr e ↦ rw (e, refused) ],
)

slot-clear_nodes :
    (nodes : List MapNode) (x : ℕ) → slot (clear_nodes nodes) x ≡ cleared (slot nodes x)
unfolding slot clear_nodes
slot-clear_nodes [] x = refl
slot-clear_nodes (n ∷ ns) zero = refl
slot-clear_nodes (n ∷ ns) (suc x) = slot-clear_nodes ns x

length-clear_nodes : (nodes : List MapNode) → length (clear_nodes nodes) ≡ length nodes
unfolding clear_nodes
length-clear_nodes [] = refl
length-clear_nodes (n ∷ ns) = ap suc (length-clear_nodes ns)

-- The entries that `clear_map` finds, in the order of the array.
pub entries : List MapNode → List (MapKey × MapVal)
entries [] = []
entries (n ∷ ns) = if is_used n then (n.key, n.val) ∷ entries ns else entries ns

clear_destroyed-entries :
    (nodes : List MapNode) (log : List (MapKey × MapVal))
    → clear_destroyed nodes log ≡ reverse (entries nodes) ++ log
unfolding clear_destroyed entries
clear_destroyed-entries [] log = refl
clear_destroyed-entries (n ∷ ns) log = elim (Bool-cases (is_used n)) [
  | inl used ↦ rw (
    used,
    clear_destroyed-entries ns,
    reverse-append ((n.key, n.val) ∷ []) (entries ns),
    append_assoc,
  )
  | inr unused ↦ rw (unused, clear_destroyed-entries ns)
]

-- `clear_map` of a valid map returns true and leaves an empty map that is valid. It calls the
-- destructor once for each slot with a key and a value, in the order of the array.
pub clear_map-IsEmpty :
    {m : Hashmap}
    → IsValid m
    → (m' : Hashmap) × (clear_map (some m)
        ≡ record { self = some m'; returns = true; errno = none })
      × IsEmpty m'
      × (m'.destroyed ≡ reverse (entries m.nodes) ++ m.destroyed)
unfolding clear_map
clear_map-IsEmpty {m} v =
    let m' : Hashmap = record m {
      nodes = clear_nodes m.nodes;
      size = 0;
      destroyed = clear_destroyed m.nodes m.destroyed;
    } in
    (
      m',
      rw v.usable,
      dead-IsEmpty m' v.usable v.room v.small (length-clear_nodes m.nodes ∙ v.width) refl
          v.hash_congr (λ x. rw slot-clear_nodes (ground (arith, v.values x))),
      clear_destroyed-entries m.nodes m.destroyed,
    )

-- `invalidate_map` of a valid map returns false though it does its work, and calls no destructor.
-- From then on every function fails with EINVAL, and the map stays as it is.
pub invalidate_map-refuses :
    {m : Hashmap}
    → IsValid m
    → (m' : Hashmap) × (invalidate_map (some m)
        ≡ record { self = some m'; returns = false; errno = none })
      × (m'.destroyed ≡ m.destroyed)
      × ((k : MapKey) (x : MapVal) (force : Bool)
          → put (some m') k x force
            ≡ some (record { self = some m'; returns = false; errno = some einval }))
      × ((k : MapKey)
          → get (some m') k ≡ record { self = some m'; returns = null_val; errno = some einval })
      × ((k : MapKey)
          → delete (some m') k
            ≡ record { self = some m'; returns = empty_node; errno = some einval })
      × (clear_map (some m') ≡ record { self = some m'; returns = false; errno = some einval })
      × (invalidate_map (some m') ≡ record { self = some m'; returns = false; errno = some einval })
unfolding invalidate_map put get delete clear_map
invalidate_map-refuses {m} v = (
  record m { nodes = []; invalid = true },
  rw v.usable,
  refl,
  λ k x force. refl,
  λ k. refl,
  λ k. refl,
  refl,
  refl,
)
