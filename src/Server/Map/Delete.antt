-- ===== src/Server/Map/Delete.antt =====
-- `delete` of multi_thread_server/src/hashmap.c: what it removes, and what it leaves.
use linux_system.Prelude.{
  ℕ, ◌+◌, ◌<◌, ◌≡◌, sym, ◌∙◌, inl, inr, true, false, none, some, arith, ◌==◌, length, set,
  Bool-cases,
}
use linux_system.Server.Hash.{is_null, MapKey, same_key, same_key_join}
use linux_system.Server.Map.{
  Hashmap, MapNode, einval, empty_node, slot, get_index, get_true_index, delete, bury, dec32,
}
use linux_system.Server.Map.Walk.{tally-set, tally-pos}
use linux_system.Server.Map.Scan.{is_live, matches}
use linux_system.Server.Map.Overwrite.{get_loop-set}
use linux_system.Server.Map.Find.{index_loop-get_loop}
use linux_system.Server.Map.Valid.{
  IsValid, view, copies, get_index-lt, view-get_loop, write-IsValid, view_complete,
}

-- The slot that a successful `get` reads, and that `delete` will bury.
found_slot :
    {m : Hashmap} (k : MapKey)
    → IsValid m
    → is_null k.key_base ≡ false
    → is_null (view m k).val_base ≡ false
    → (j : ℕ) × ((get_true_index (some m) k).returns ≡ some j)
      × (j < m.capacity)
      × (matches k (slot m.nodes j) ≡ true)
      × (view m k ≡ (slot m.nodes j).val)
found_slot {m} k v named there =
    let e = view-get_loop m k v.usable named in
    let (j, found, lt, match_k, val) =
      index_loop-get_loop m.capacity m.capacity m.nodes (get_index m k) k (get_index-lt m k v.room)
        (rw e at there) in
    (j, unfold get_true_index in ground (arith, v.usable), lt, match_k, e ∙ val)

-- `get` finds a value under a key exactly if some live slot holds the key.
pub view-copies :
    {m : Hashmap} (k : MapKey)
    → IsValid m
    → is_null k.key_base ≡ false
    → is_null (view m k).val_base ≡ (copies m k == 0)
view-copies {m} k v named = elim (Bool-cases (is_null (view m k).val_base)) [
  | inl gone ↦ rw gone (ground (arith, view_complete k v named gone))
  | inr there ↦
      let (j, _, lt, match_k, _) = found_slot k v named there in
      rw there (ground (arith, tally-pos (matches k) m.nodes j (omega (arith, v.width)) match_k))
]

-- What `delete` of `k` leaves: the entry that `get` read is returned, one live slot of the key
-- less, and every other key as it was.
pub record Removes (m : Hashmap) (k : MapKey) (m' : Hashmap) (node : MapNode) : Type 0 where
  pub valid : IsValid m'
  pub returns : (same_key k node.key ≡ true) × (node.val ≡ view m k)
  pub size : m'.size + 1 ≡ m.size
  pub fewer : copies m' k + 1 ≡ copies m k
  pub others :
      (q : MapKey) → is_null q.key_base ≡ false → same_key k q ≡ false → view m' q ≡ view m q

abbrev pub buried : Hashmap → ℕ → Hashmap
buried m j = record m {
  nodes = set m.nodes j (record (slot m.nodes j) { tombstone = true });
  size = dec32 m.size;
}

bury-Removes :
    {m : Hashmap} (k : MapKey) (j : ℕ)
    → IsValid m
    → j < m.capacity
    → matches k (slot m.nodes j) ≡ true
    → view m k ≡ (slot m.nodes j).val
    → Removes m k (buried m j) (slot m.nodes j)
bury-Removes {m} k j v lt match_k val =
    let old = slot m.nodes j in
    let w : MapNode = record old { tombstone = true } in
    let inside : j < length m.nodes = omega (arith, v.width) in
    let used : is_null w.key.key_base ≡ false = ground arith in
    let dead : (q : MapKey) → matches q w ≡ false = λ q. ground arith in
    let lived : is_live old ≡ true = ground arith in
    let live = tally-set is_live m.nodes j w inside in
    let pos = tally-pos is_live m.nodes j inside lived in
    let smaller : dec32 m.size + 1 ≡ m.size = omega (arith, v.counted, v.fits, v.small) in
    record {
      valid =
          write-IsValid j w (dec32 m.size) m.destroyed v lt used (λ a. ground arith)
            (ground (arith, live, v.counted, pos, smaller)) (omega (arith, v.fits, smaller))
            (λ q own. cc (dead q));
      returns = (ground arith, sym val);
      size = smaller;
      fewer = ground (arith, tally-set (matches k) m.nodes j w inside);
      others = λ q named_q other.
          unfold get_index in
          view-get_loop _ q v.usable named_q
          ∙ get_loop-set m.capacity m.nodes j w inside m.capacity (get_index m q) q used (dead q)
              (ground (arith, same_key_join k q old.key)) (v.paths q)
          ∙ sym (view-get_loop m q v.usable named_q);
    }

-- `delete` of a key under which `get` reads a value ends with success: it returns that entry, the
-- map stays valid and loses one from its size and one live slot of the key, and every other key
-- reads as before.
pub delete-Removes :
    {m : Hashmap} (k : MapKey)
    → IsValid m
    → is_null k.key_base ≡ false
    → is_null (view m k).val_base ≡ false
    → (m' : Hashmap) × (node : MapNode) × (delete (some m) k
        ≡ record { self = some m'; returns = node; errno = none })
      × Removes m k m' node
delete-Removes {m} k v named there =
    let (j, found, lt, match_k, val) = found_slot k v named there in
    (
      buried m j,
      slot m.nodes j,
      unfold delete bury in ground (arith, v.usable),
      bury-Removes k j v lt match_k val,
    )

-- `delete` of a key under which `get` reads nothing fails with EINVAL and leaves the map alone.
pub delete-missing :
    {m : Hashmap} (k : MapKey)
    → is_null (view m k).val_base ≡ true
    → delete (some m) k ≡ record { self = some m; returns = empty_node; errno = some einval }
unfolding delete
delete-missing {m} k gone = ground arith

-- After a successful `delete` the key is gone exactly if it had one live slot.
pub view-delete :
    {m : Hashmap} (k : MapKey) (m' : Hashmap) (node : MapNode)
    → is_null k.key_base ≡ false
    → Removes m k m' node
    → is_null (view m' k).val_base ≡ (copies m k == 1)
view-delete {m} k m' node named r = view-copies k r.valid named ∙ ground (arith, r.fewer)
