-- ===== src/Server/Map/Put.antt =====
-- `put` of multi_thread_server/src/hashmap.c on every branch.
use linux_system.Prelude.{
  ℕ, suc, ◌+◌, ◌-◌, ◌<◌, ◌≡◌, refl, sym, ◌↔◌, inl, inr, Bool, true, false, not, ◌&&◌, ◌||◌, none,
  some, ◌∷◌, arith, ◌==◌, ltb, if◌then◌else◌, length, set, length-set, subst, Bool-cases,
}
use linux_system.Server.Hash.{is_null, MapKey, same_key, same_key_refl}
use linux_system.Server.Map.{
  Hashmap, MapNode, MapVal, Outcome, einval, enomem, slot, get_index, put, put_free, put_evict,
  failed,
}
use linux_system.Server.Map.Walk.{tally-set-le, tally-le-length}
use linux_system.Server.Map.Scan.{
  is_live, matches, path, written, put_loop-put_slot, put_slot-stops,
}
use linux_system.Server.Map.Landing.{path-put_slot, path-here}
use linux_system.Server.Map.Valid.{IsValid, view, get_index-lt, get_index_congr}
use linux_system.Server.Map.Store.{
  Holds, put_slot-total, written-Holds, unmatched, stored-IsValid, view-stored_other,
  view-stored_self, view-stored_home, put_slot_congr,
}

-- What a map reads as after a write of `x` under `k`.
abbrev pub Reads : Hashmap → MapKey → MapVal → Hashmap → Type 0
Reads m k x m' =
    (q : MapKey) → is_null q.key_base ≡ false → view m' q ≡ (if same_key k q then x else view m q)

-- In a map with room `put` ends and returns true. The new map is valid, one larger by its own
-- count, has destroyed nothing, reads the new value under the key, and under every other key
-- reads what it read before.
pub put_free-Reads :
    {m : Hashmap} (k : MapKey) (x : MapVal) (force : Bool)
    → IsValid m
    → is_null k.key_base ≡ false
    → is_null x.val_base ≡ false
    → m.size < m.capacity
    → (m' : Hashmap) × (put (some m) k x force
        ≡ some (record { self = some m'; returns = true; errno = none }))
      × IsValid m'
      × (m'.size ≡ m.size + 1)
      × (m'.destroyed ≡ m.destroyed)
      × Reads m k x m'
put_free-Reads {m} k x force v named valued lt =
    let home = get_index m k in
    let (j, found) = put_slot-total k v lt in
    let li = get_index-lt m k v.room in
    let (s, lj) = put_slot-stops m.capacity m.capacity m.nodes home k j found li in
    let w = written (slot m.nodes j) k x in
    let holds = written-Holds (slot m.nodes j) k x named s in
    let size = m.size + 1 in
    (
      record m { nodes = set m.nodes j w; size = size },
      unfold put put_free in
          ground (arith, v.usable, put_loop-put_slot m.capacity m.capacity m.nodes home k x, found),
      stored-IsValid v k x named valued j w lj holds m.destroyed size
          (omega (arith, tally-set-le is_live m.nodes j w (omega (arith, v.width)))) (omega arith)
          (path-put_slot m.capacity m.nodes j w v.width lj m.capacity home k li (omega arith)
            holds.1 found (v.paths k)),
      refl,
      refl,
      λ q named_q. elim (Bool-cases (same_key k q)) [
        | inl same ↦ rw same (
            view-stored_self v k x named valued j w lj holds m.destroyed size q named_q same (
              rw
                (
                  ← get_index_congr k q v same,
                  ← put_slot_congr m.capacity m.capacity m.nodes home k q same,
                )
                found))
        | inr other ↦ rw other (
            view-stored_other v k x named valued j w lj holds m.destroyed size q named_q other
              (unmatched k q (slot m.nodes j) s other))
      ],
    )

path-evict :
    (m : Hashmap) (k : MapKey) (w : MapNode)
    → IsValid m
    → is_null w.key.key_base ≡ false
    → path m.capacity m.capacity (set m.nodes (get_index m k) w) (get_index m k) k ≡ true
path-evict m k w v used =
    let home = get_index m k in
    let e : m.capacity ≡ suc (m.capacity - 1) = omega (arith, v.room) in
    let before : path (suc (m.capacity - 1)) m.capacity m.nodes home k ≡ true =
      subst (λ (r : ℕ). path r m.capacity m.nodes home k ≡ true) e (v.paths k) in
    subst (λ (r : ℕ). path r m.capacity (set m.nodes home w) home k ≡ true) (sym e)
      (path-here m.capacity m.nodes home w v.width (get_index-lt m k v.room) (m.capacity - 1) k
        (omega (arith, v.room)) used before)

-- In a full map `put` with `force` ends and returns true. The new map is valid and of the same
-- size, the entry at the key's index, and no other, has been destroyed, the new value is read
-- under the key, and a key that is neither the new one nor live in that slot reads as before.
pub put_evict-Reads :
    {m : Hashmap} (k : MapKey) (x : MapVal)
    → IsValid m
    → is_null k.key_base ≡ false
    → is_null x.val_base ≡ false
    → m.size ≡ m.capacity
    → let old = slot m.nodes (get_index m k) in
      (m' : Hashmap) × (put (some m) k x true
        ≡ some (record { self = some m'; returns = true; errno = none }))
      × IsValid m'
      × (m'.size ≡ m.size)
      × (m'.destroyed ≡ (old.key, old.val) ∷ m.destroyed)
      × ((q : MapKey)
          → is_null q.key_base ≡ false
          → (same_key k q ≡ true → view m' q ≡ x)
            × (same_key k q ≡ false → matches q old ≡ false → view m' q ≡ view m q))
put_evict-Reads {m} k x v named valued full =
    let home = get_index m k in
    let li = get_index-lt m k v.room in
    let old = slot m.nodes home in
    let w : MapNode = record { key = k; val = x; tombstone = false } in
    let holds : Holds k x w = ground (arith, same_key_refl k) in
    let log = (old.key, old.val) ∷ m.destroyed in
    let inside : home < length m.nodes = omega (arith, v.width) in
    (
      record m { nodes = set m.nodes home w; destroyed = log },
      unfold put put_evict in ground (arith, v.usable),
      stored-IsValid v k x named valued home w li holds log m.size
          (omega (
            arith,
            v.width,
            tally-le-length is_live (set m.nodes home w),
            length-set m.nodes home w,
          ))
          v.fits (path-evict m k w v holds.1),
      refl,
      refl,
      λ q named_q. (
        λ same.
            view-stored_home v k x named valued home w li holds log m.size q named_q same
              (sym (get_index_congr k q v same)),
        λ other old_q.
            view-stored_other v k x named valued home w li holds log m.size q named_q other old_q,
      ),
    )

-- The arguments that `put` turns down: NULL pointers, and a full map without `force`.
abbrev pub refuses : Hashmap → MapKey → MapVal → Bool → Bool
refuses m k x force =
    is_null k.key_base || is_null x.val_base || (m.capacity == m.size) && not force

pub put_refused :
    {m : Hashmap} (k : MapKey) (x : MapVal) (force : Bool)
    → IsValid m
    → refuses m k x force ≡ true
    → (o : Outcome Bool) × (put (some m) k x force ≡ some o)
      × (o.returns ≡ false)
      × (o.self ≡ some m)
unfolding put
put_refused {m} k x force v h = elim (Bool-cases (is_null k.key_base || is_null x.val_base)) [
  | inl z ↦ (failed (some m) false einval, ground (arith, v.usable), refl, refl)
  | inr z ↦ (failed (some m) false enomem, ground (arith, v.usable), refl, refl)
]

put_accepted :
    {m : Hashmap} (k : MapKey) (x : MapVal) (force : Bool)
    → IsValid m
    → refuses m k x force ≡ false
    → (o : Outcome Bool) × (put (some m) k x force ≡ some o) × (o.returns ≡ true)
put_accepted {m} k x force v h =
    let named : is_null k.key_base ≡ false = ground arith in
    let valued : is_null x.val_base ≡ false = ground arith in
    elim (Bool-cases (ltb m.size m.capacity)) [
      | inl room ↦
          let (m', runs, _, _, _, _) = put_free-Reads k x force v named valued (ground arith) in
          (_, runs, refl)
      | inr full ↦ (
        put_evict m k x,
        unfold put in ground (arith, v.usable, v.fits),
        unfold put_evict in refl,
      )
    ]

-- `put` always ends. It returns false exactly if the key or the value is NULL or the map is full
-- and `force` is off, and then it leaves the map alone.
pub put-false_iff :
    {m : Hashmap} (k : MapKey) (x : MapVal) (force : Bool)
    → IsValid m
    → (o : Outcome Bool) × (put (some m) k x force ≡ some o)
      × ((o.returns ≡ false) ↔ (refuses m k x force ≡ true))
      × (o.returns ≡ false → o.self ≡ some m)
put-false_iff {m} k x force v = elim (Bool-cases (refuses m k x force)) [
  | inl yes_refused ↦
      let (o, runs, value, same) = put_refused k x force v yes_refused in
      (o, runs, (λ _. yes_refused, λ _. value), λ _. same)
  | inr accepted ↦
      let (o, runs, value) = put_accepted k x force v accepted in
      (o, runs, (λ e. cc, λ e. cc), λ e. cc)
]
