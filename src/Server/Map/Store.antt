-- ===== src/Server/Map/Store.antt =====
-- What a map reads once a slot holds a new key and value, and that `put` of
-- multi_thread_server/src/hashmap.c comes to a slot.
use linux_system.Prelude.{
  ℕ, zero, suc, ◌≤◌, ◌<◌, ◌≡◌, refl, sym, ap, ◌∙◌, inl, inr, true, false, some, List, arith, set,
  Option-cases,
}
use linux_system.Server.Hash.{
  is_null, MapKey, same_key, same_key_refl, same_key_congr, same_key_join,
}
use linux_system.Server.Map.{Hashmap, MapNode, MapVal, slot, get_index, get_loop}
use linux_system.Server.Map.Walk.{tally, tally-eq-length, walk_all_slots, slot-set_self}
use linux_system.Server.Map.Scan.{
  is_live, matches, stops, path, put_slot, written, put_slot-none, path_congr,
}
use linux_system.Server.Map.Overwrite.{get_loop-set}
use linux_system.Server.Map.Landing.{get_loop-put_slot}
use linux_system.Server.Map.Valid.{
  IsValid, view, get_index-lt, get_index_congr, view-get_loop, write-IsValid,
}

-- In a map with room the loop of `put` comes to a slot.
pub put_slot-total :
    {m : Hashmap} (k : MapKey)
    → IsValid m
    → m.size < m.capacity
    → (j : ℕ) × (put_slot m.capacity m.capacity m.nodes (get_index m k) k ≡ some j)
put_slot-total {m} k v lt =
    elim (Option-cases (put_slot m.capacity m.capacity m.nodes (get_index m k) k)) [
      | inr found ↦ found
      | inl e ↦
          let i = get_index m k in
          let full = put_slot-none m.capacity m.capacity m.nodes i k e in
          let all = tally-eq-length is_live m.nodes (λ x lx.
            walk_all_slots is_live m.capacity m.nodes i x full (get_index-lt m k v.room)
              (omega (arith, v.width))) in
          absurd (omega (arith, v.width, v.counted))
    ]

-- The slot that `put` leaves holds its key and value.
abbrev pub Holds : MapKey → MapVal → MapNode → Type 0
Holds k v w =
    (matches k w ≡ true)
    × (is_null w.key.key_base ≡ false)
    × (w.val ≡ v)
    × (same_key k w.key ≡ true)

pub written-Holds :
    (n : MapNode) (k : MapKey) (v : MapVal)
    → is_null k.key_base ≡ false
    → stops k n ≡ true
    → Holds k v (written n k v)
written-Holds n k v named s = ground (arith, same_key_refl k)

pub unmatched :
    (k q : MapKey) (n : MapNode) → stops k n ≡ true → same_key k q ≡ false → matches q n ≡ false
unmatched k q n s other = ground (arith, same_key_join k q n.key)

get_loop-first :
    (r capacity : ℕ) (nodes : List MapNode) (i : ℕ) (k : MapKey)
    → 0 < r
    → matches k (slot nodes i) ≡ true
    → get_loop r capacity nodes i k ≡ (slot nodes i).val
unfolding get_loop
get_loop-first zero capacity nodes i k pos h = absurd (omega arith)
get_loop-first (suc r) capacity nodes i k pos h = ground arith

module _ {m : Hashmap} (v : IsValid m) (k : MapKey) (x : MapVal)
    (named : is_null k.key_base ≡ false) (valued : is_null x.val_base ≡ false) (j : ℕ) (w : MapNode)
    (lt : j < m.capacity) (holds : Holds k x w) (log : List (MapKey × MapVal)) (size : ℕ) where
  abbrev pub stored : Hashmap
  stored = record m { nodes = set m.nodes j w; size = size; destroyed = log }

  abbrev home : ℕ
  home = get_index m k

  -- The written map is valid if the path of the key is kept.
  pub stored-IsValid :
      tally is_live (set m.nodes j w) ≤ size
      → size ≤ m.capacity
      → path m.capacity m.capacity (set m.nodes j w) home k ≡ true
      → IsValid stored
  stored-IsValid count le own =
      write-IsValid j w size log v lt holds.1 (λ _. rw holds.2 valued) count le
        (λ q mq.
          let same = same_key_join k q w.key holds.3 (ground arith) in
          rw
            (
              ← get_index_congr k q v same,
              ← path_congr m.capacity m.capacity (set m.nodes j w) home k q same,
            )
            own)

  -- Under a key that neither the old nor the new slot matches nothing changes.
  pub view-stored_other :
      (q : MapKey)
      → is_null q.key_base ≡ false
      → same_key k q ≡ false
      → matches q (slot m.nodes j) ≡ false
      → view stored q ≡ view m q
  unfolding get_index
  view-stored_other q named_q other old =
      view-get_loop stored q v.usable named_q
      ∙ get_loop-set m.capacity m.nodes j w (omega (arith, v.width)) m.capacity (get_index m q) q
          holds.1 (ground (arith, same_key_join k q w.key)) old (v.paths q)
      ∙ sym (view-get_loop m q v.usable named_q)

  -- Under an equal key the value is read, if the loop of `put` comes to the slot.
  pub view-stored_self :
      (q : MapKey)
      → is_null q.key_base ≡ false
      → same_key k q ≡ true
      → put_slot m.capacity m.capacity m.nodes (get_index m q) q ≡ some j
      → view stored q ≡ x
  unfolding get_index
  view-stored_self q named_q same found =
      view-get_loop stored q v.usable named_q
      ∙ get_loop-put_slot m.capacity m.nodes j w v.width lt m.capacity (get_index m q) q
          (get_index-lt m q v.room) (ground (arith, same_key_congr k q w.key)) found
      ∙ holds.2

  -- And so it is if the slot is the first of its walk.
  pub view-stored_home :
      (q : MapKey)
      → is_null q.key_base ≡ false
      → same_key k q ≡ true
      → get_index m q ≡ j
      → view stored q ≡ x
  unfolding get_index
  view-stored_home q named_q same first =
      let here = slot-set_self m.nodes j w (omega (arith, v.width)) in
      let match_q : matches q w ≡ true = ground (arith, same_key_congr k q w.key) in
      view-get_loop stored q v.usable named_q
      ∙ ap (λ (i : ℕ). get_loop m.capacity m.capacity (set m.nodes j w) i q) first
      ∙ get_loop-first m.capacity m.capacity (set m.nodes j w) j q v.room (rw here match_q)
      ∙ ap (λ (n : MapNode). n.val) here
      ∙ holds.2

stops_congr : (k q : MapKey) (n : MapNode) → same_key k q ≡ true → stops k n ≡ stops q n
stops_congr k q n h = rw (same_key_congr k q n.key h)

pub put_slot_congr :
    (r capacity : ℕ) (nodes : List MapNode) (i : ℕ) (k q : MapKey)
    → same_key k q ≡ true
    → put_slot r capacity nodes i k ≡ put_slot r capacity nodes i q
unfolding put_slot
put_slot_congr zero capacity nodes i k q h = refl
put_slot_congr (suc r) capacity nodes i k q h =
    rw (stops_congr k q (slot nodes i) h, put_slot_congr r capacity nodes _ k q h)
