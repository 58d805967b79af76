-- ===== src/Server/Map/Drift.antt =====
-- Where hashmap.c drifts from the map that its header promises: `put` stops at the first
-- tombstone, without looking whether the key is live behind it, and counts every call as a new
-- entry.
use linux_system.Prelude.{
  ℕ, zero, suc, ◌+◌, ◌<◌, ◌≡◌, ◌∙◌, Bool, true, false, none, some, List, arith, length, set,
}
use linux_system.Server.Hash.{is_null, MapKey, same_key_refl}
use linux_system.Server.Map.{Hashmap, MapNode, MapVal, slot, get_index, delete, put, put_free}
use linux_system.Server.Map.Walk.{tally, tally-set}
use linux_system.Server.Map.Scan.{is_live, matches, put_slot, put_loop-put_slot, stops, written}
use linux_system.Server.Map.Valid.{IsValid, view, copies, get_index-lt}
use linux_system.Server.Map.Put.{put_free-Reads}
use linux_system.Server.Map.Delete.{delete-Removes, view-delete}

put_slot-first :
    (r capacity : ℕ) (nodes : List MapNode) (i : ℕ) (k : MapKey)
    → 0 < r
    → stops k (slot nodes i) ≡ true
    → put_slot r capacity nodes i k ≡ some i
unfolding put_slot
put_slot-first zero capacity nodes i k pos s = absurd (omega arith)
put_slot-first (suc r) capacity nodes i k pos s = rw s

-- The map that `put` leaves where its loop stops at once.
put-first :
    {m : Hashmap} (k : MapKey) (x : MapVal) (force : Bool) (m' : Hashmap)
    → IsValid m
    → is_null k.key_base ≡ false
    → is_null x.val_base ≡ false
    → m.size < m.capacity
    → stops k (slot m.nodes (get_index m k)) ≡ true
    → put (some m) k x force ≡ some (record { self = some m'; returns = true; errno = none })
    → m'.nodes ≡ set m.nodes (get_index m k) (written (slot m.nodes (get_index m k)) k x)
unfolding put put_free
put-first {m} k x force m' v named valued lt s runs =
    let home = get_index m k in
    ground (
      arith,
      v.usable,
      put_loop-put_slot m.capacity m.capacity m.nodes home k x,
      put_slot-first m.capacity m.capacity m.nodes home k v.room s,
    )

-- In a valid map with a size below its capacity, where the first slot of a key is a tombstone and the
-- key is live elsewhere, `put` of the key with a value that is not NULL returns true; one `delete` of it then succeeds and returns
-- the new value, and a value that is not NULL can still be read under the key.
pub put-delete_stale :
    {m : Hashmap} (k : MapKey) (x : MapVal) (force : Bool)
    → IsValid m
    → is_null k.key_base ≡ false
    → is_null x.val_base ≡ false
    → m.size < m.capacity
    → (slot m.nodes (get_index m k)).tombstone ≡ true
    → 0 < copies m k
    → (m' m'' : Hashmap) × (node : MapNode) × (put (some m) k x force
        ≡ some (record { self = some m'; returns = true; errno = none }))
      × (delete (some m') k ≡ record { self = some m''; returns = node; errno = none })
      × (node.val ≡ x)
      × (is_null (view m'' k).val_base ≡ false)
put-delete_stale {m} k x force v named valued lt tomb live =
    let home = get_index m k in
    let old = slot m.nodes home in
    let inside : home < length m.nodes = omega (arith, v.width, get_index-lt m k v.room) in
    let (m', runs, valid, size, log, reads) = put_free-Reads k x force v named valued lt in
    let first = put-first k x force m' v named valued lt (ground arith) runs in
    let here : view m' k ≡ x = rw (reads k named, same_key_refl k) in
    let more : copies m' k ≡ copies m k + 1 = rw first (
      ground
        (arith, tally-set (matches k) m.nodes home (written old k x) inside, same_key_refl k)) in
    let (m'', node, gone, r) = delete-Removes k valid named (rw here valued) in
    (
      m',
      m'',
      node,
      runs,
      gone,
      r.returns.1 ∙ here,
      view-delete k m'' node named r ∙ ground (arith, more),
    )

-- In a valid map with a size below its capacity, `put` of a key that is live in its own first slot,
-- with a value that is not NULL, returns true, adds one to the size and leaves the number of live
-- slots as it is.
pub put_overcounts :
    {m : Hashmap} (k : MapKey) (x : MapVal) (force : Bool)
    → IsValid m
    → is_null k.key_base ≡ false
    → is_null x.val_base ≡ false
    → m.size < m.capacity
    → matches k (slot m.nodes (get_index m k)) ≡ true
    → (m' : Hashmap) × (put (some m) k x force
        ≡ some (record { self = some m'; returns = true; errno = none }))
      × (m'.size ≡ m.size + 1)
      × (tally is_live m'.nodes ≡ tally is_live m.nodes)
put_overcounts {m} k x force v named valued lt match_k =
    let home = get_index m k in
    let old = slot m.nodes home in
    let inside : home < length m.nodes = omega (arith, v.width, get_index-lt m k v.room) in
    let (m', runs, valid, size, log, reads) = put_free-Reads k x force v named valued lt in
    let first = put-first k x force m' v named valued lt (ground arith) runs in
    (
      m',
      runs,
      size,
      rw first (ground (arith, tally-set is_live m.nodes home (written old k x) inside)),
    )
