-- ===== src/Server/Map/Landing.antt =====
-- The searches of multi_thread_server/src/hashmap.c for the key that a slot was written with.
use linux_system.Prelude.{
  ℕ, zero, suc, ◌≤◌, ◌<◌, ◌≡◌, refl, ◌≢◌, inl, inr, true, false, some, List, arith, length, set,
  Bool-cases,
}
use linux_system.Server.Hash.{is_null, MapKey}
use linux_system.Server.Map.{MapNode, next_index, slot, get_loop}
use linux_system.Server.Map.Walk.{
  slot-set_self, slot-set_ne, next_index-lt, Avoids, Avoids-start, Avoids-ne, Avoids-next, walk_all,
}
use linux_system.Server.Map.Scan.{
  matches, stops, put_slot, put_slot-stops, absent, path, absent-path,
}

module _ (capacity : ℕ) (nodes : List MapNode) (j : ℕ) (w : MapNode)
    (width : length nodes ≡ capacity) (inside : j < capacity) where
  abbrev after : List MapNode
  after = set nodes j w

  slot-away : (i : ℕ) → j ≢ i → slot after i ≡ slot nodes i
  slot-away i n = slot-set_ne nodes j i w n

  slot-here : slot after j ≡ w
  slot-here = slot-set_self nodes j w (omega arith)

  -- A stretch that does not come to the slot is as before.
  absent-away :
      (r i : ℕ) (k : MapKey)
      → i < capacity
      → Avoids capacity r i j
      → absent r capacity after i k ≡ absent r capacity nodes i k
  unfolding walk_all
  absent-away zero i k li a = refl
  absent-away (suc r) i k li a = rw (
    slot-away i (Avoids-ne capacity r i j a li),
    absent-away r (next_index capacity i) k (next_index-lt capacity i li)
        (Avoids-next capacity r i j a li inside),
  )

  path-away :
      (r i : ℕ) (k : MapKey)
      → i < capacity
      → Avoids capacity r i j
      → path r capacity after i k ≡ path r capacity nodes i k
  unfolding path
  path-away zero i k li a = refl
  path-away (suc r) i k li a =
      let li' = next_index-lt capacity i li in
      let a' = Avoids-next capacity r i j a li inside in
      rw (
        slot-away i (Avoids-ne capacity r i j a li),
        absent-away r (next_index capacity i) k li' a',
        path-away r (next_index capacity i) k li' a',
      )

  -- From the written slot on, at most once round.
  pub path-here :
      (r : ℕ) (k : MapKey)
      → r < capacity
      → is_null w.key.key_base ≡ false
      → path (suc r) capacity nodes j k ≡ true
      → path (suc r) capacity after j k ≡ true
  unfolding path
  path-here r k lr used h =
      let next = next_index capacity j in
      let same =
        path-away r next k (next_index-lt capacity j inside)
          (Avoids-start capacity r j inside lr) in
      rw (slot-here, used, same)
        (elim (Bool-cases (is_null (slot nodes j).key.key_base)) [
          | inl z ↦ absent-path r capacity nodes next k (rw z at h)
          | inr z ↦ rw z at h
        ])

  not_stop :
      (k : MapKey) (i : ℕ) → stops k (slot nodes j) ≡ true → stops k (slot nodes i) ≡ false → j ≢ i
  not_stop k i s n e = cc

  -- `put` keeps the path of its key.
  pub path-put_slot :
      (r i : ℕ) (k : MapKey)
      → i < capacity
      → r ≤ capacity
      → is_null w.key.key_base ≡ false
      → put_slot r capacity nodes i k ≡ some j
      → path r capacity nodes i k ≡ true
      → path r capacity after i k ≡ true
  unfolding put_slot path
  path-put_slot zero i k li lr used found h = cc
  path-put_slot (suc r) i k li lr used found h = elim (Bool-cases (stops k (slot nodes i))) [
    | inl here ↦ let e : i ≡ j = ground arith in rw e (path-here r k (omega arith) used (rw e at h))
    | inr on ↦
        let rest : put_slot r capacity nodes (next_index capacity i) k ≡ some j = ground arith in
        let li' = next_index-lt capacity i li in
        let s = (put_slot-stops r capacity nodes _ k j rest li').0 in
        rw (slot-away i (not_stop k i s on))
          (ground (arith, path-put_slot r (next_index capacity i) k li' (omega arith) used rest))
  ]

  -- After `put` a search for the key comes to the written slot.
  pub get_loop-put_slot :
      (r i : ℕ) (k : MapKey)
      → i < capacity
      → matches k w ≡ true
      → put_slot r capacity nodes i k ≡ some j
      → get_loop r capacity after i k ≡ w.val
  unfolding put_slot get_loop
  get_loop-put_slot zero i k li m found = cc
  get_loop-put_slot (suc r) i k li m found = elim (Bool-cases (stops k (slot nodes i))) [
    | inl here ↦ let e : i ≡ j = ground arith in rw (e, slot-here) (ground arith)
    | inr on ↦
        let rest : put_slot r capacity nodes (next_index capacity i) k ≡ some j = ground arith in
        let li' = next_index-lt capacity i li in
        let s = (put_slot-stops r capacity nodes _ k j rest li').0 in
        rw (slot-away i (not_stop k i s on))
          (ground (arith, get_loop-put_slot r (next_index capacity i) k li' m rest))
  ]
