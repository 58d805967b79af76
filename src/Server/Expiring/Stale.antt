-- ===== src/Server/Expiring/Stale.antt =====
-- A put into a full map of multi_thread_server/src/extracredit.c.
use linux_system.Prelude.{ℕ, ◌≡◌, refl, true, false, none, some, List, [], ◌∷◌, arith}
use linux_system.Server.Hash.{is_null, MapKey}
use linux_system.Server.Map.{MapVal, null_val}
use linux_system.Server.Expiring.{
  TimedNode, TimedMap, timed_slot, timed_index, is_expired, timed_put, timed_put_evict,
  timed_get_loop, timed_get,
}

-- A full map of one slot.
abbrev pub one_slot : (MapKey → ℕ) → TimedNode → List (MapKey × MapVal) → TimedMap
one_slot hash node log = record {
  capacity = 1;
  size = 1;
  nodes = node ∷ [];
  hash_function = hash;
  invalid = false;
  destroyed = log;
}

-- The entry that `put` with `force` leaves in the place of `node`.
abbrev replaced : TimedNode → MapKey → MapVal → TimedNode
replaced node key val = record node { key = key; val = val; tombstone = false }

index_one :
    (hash : MapKey → ℕ) (node : TimedNode) (log : List (MapKey × MapVal)) (key : MapKey)
    → timed_index (one_slot hash node log) key ≡ 0
unfolding timed_index
index_one hash node log key = omega arith

evict_one :
    (hash : MapKey → ℕ) (node : TimedNode) (log : List (MapKey × MapVal)) (now : ℕ) (key : MapKey)
    (val : MapVal)
    → is_null key.key_base ≡ false
    → is_null val.val_base ≡ false
    → timed_put now (some (one_slot hash node log)) key val true
      ≡ some (record {
        self = some (one_slot hash (replaced node key val) ((node.key, node.val) ∷ log));
        returns = true;
        errno = none;
      })
unfolding timed_put timed_put_evict timed_slot
evict_one hash node log now key val named valued =
    rw (named, valued, index_one hash node log key) refl

-- Where the only entry of a full map has expired, `put` with `force` returns true and destroys it,
-- but the new entry is as old: a `get` of the key right behind it finds nothing.
pub timed_put-get_stale :
    (per_second : ℕ) (clock : ℕ → ℕ) (hash : MapKey → ℕ) (node : TimedNode)
    (log : List (MapKey × MapVal)) (now : ℕ) (key : MapKey) (val : MapVal)
    → is_null key.key_base ≡ false
    → is_null val.val_base ≡ false
    → is_expired per_second (clock 0) node ≡ true
    → (m' : TimedMap) × (timed_put now (some (one_slot hash node log)) key val true
        ≡ some (record { self = some m'; returns = true; errno = none }))
      × (m'.destroyed ≡ (node.key, node.val) ∷ log)
      × ((timed_get per_second clock (some m') key).returns ≡ null_val)
unfolding timed_get timed_get_loop timed_slot is_expired
timed_put-get_stale p clock hash node log now key val named valued old =
    let m' = one_slot hash (replaced node key val) ((node.key, node.val) ∷ log) in
    (
      m',
      evict_one hash node log now key val named valued,
      refl,
      rw (named, index_one hash (replaced node key val) ((node.key, node.val) ∷ log) key)
          (ground arith),
    )
