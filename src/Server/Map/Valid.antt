-- ===== src/Server/Map/Valid.antt =====
-- The representation invariant of `hashmap_t`, and the maps that a write of one slot leaves valid.
use linux_system.Prelude.{
  ℕ, ◌^◌, ◌≤◌, ◌<◌, ◌≡◌, inl, inr, true, false, some, List, arith, length, set, length-set,
  Bool-cases, ℕ_discrete,
}
use linux_system.Server.Hash.{is_null, MapKey, same_key}
use linux_system.Server.Map.{Hashmap, MapNode, MapVal, slot, get_index, get_loop, get}
use linux_system.Server.Map.Walk.{tally, slot-set_self, slot-set_ne}
use linux_system.Server.Map.Scan.{is_live, matches, path}
use linux_system.Server.Map.Overwrite.{path-set}
use linux_system.Server.Map.Find.{HasValues, absent_of_get_loop, tally-absent}

pub record IsValid (m : Hashmap) : Type 0 where
  pub usable : m.invalid ≡ false
  pub room : 0 < m.capacity
  pub small : m.capacity < 2 ^ 31
  pub width : length m.nodes ≡ m.capacity
  pub counted : tally is_live m.nodes ≤ m.size
  pub fits : m.size ≤ m.capacity
  pub values : HasValues m.nodes
  pub hash_congr : (a b : MapKey) → same_key a b ≡ true → m.hash_function a ≡ m.hash_function b
  pub paths : (k : MapKey) → path m.capacity m.capacity m.nodes (get_index m k) k ≡ true

-- What a client reads under a key.
abbrev pub view : Hashmap → MapKey → MapVal
view m k = (get (some m) k).returns

-- How many live slots a key has.
abbrev pub copies : Hashmap → MapKey → ℕ
copies m k = tally (matches k) m.nodes

pub get_index-lt : (m : Hashmap) (k : MapKey) → 0 < m.capacity → get_index m k < m.capacity
unfolding get_index
get_index-lt m k h = omega arith

pub view-get_loop :
    (m : Hashmap) (k : MapKey)
    → m.invalid ≡ false
    → is_null k.key_base ≡ false
    → view m k ≡ get_loop m.capacity m.capacity m.nodes (get_index m k) k
unfolding get
view-get_loop m k open_map named = ground arith

pub get_index_congr :
    {m : Hashmap} (k q : MapKey) → IsValid m → same_key k q ≡ true → get_index m k ≡ get_index m q
unfolding get_index
get_index_congr k q v h = rw (v.hash_congr k q h)

slot-set-HasValues :
    (nodes : List MapNode) (j : ℕ) (w : MapNode)
    → j < length nodes
    → HasValues nodes
    → (is_live w ≡ true → is_null w.val.val_base ≡ false)
    → HasValues (set nodes j w)
slot-set-HasValues nodes j w lt values good x live = elim (ℕ_discrete j x) [
  | yes e ↦
      let here : slot (set nodes j w) x ≡ w = rw (← e) (slot-set_self nodes j w lt) in
      rw here (good (rw here at live))
  | no n ↦ let away = slot-set_ne nodes j x w n in rw away (values x (rw away at live))
]

-- A write of the slot `j` keeps the invariant, if the paths of the keys that `w` matches are kept.
pub write-IsValid :
    {m : Hashmap} (j : ℕ) (w : MapNode) (size : ℕ) (log : List (MapKey × MapVal))
    → IsValid m
    → j < m.capacity
    → is_null w.key.key_base ≡ false
    → (is_live w ≡ true → is_null w.val.val_base ≡ false)
    → tally is_live (set m.nodes j w) ≤ size
    → size ≤ m.capacity
    → ((q : MapKey)
        → matches q w ≡ true
        → path m.capacity m.capacity (set m.nodes j w) (get_index m q) q ≡ true)
    → IsValid (record m { nodes = set m.nodes j w; size = size; destroyed = log })
unfolding get_index
write-IsValid {m} j w size log v lt used good count le own = record {
  usable = v.usable;
  room = v.room;
  small = v.small;
  width = rw length-set v.width;
  counted = count;
  fits = le;
  values = slot-set-HasValues m.nodes j w (omega (arith, v.width)) v.values good;
  hash_congr = v.hash_congr;
  paths = λ q. elim (Bool-cases (matches q w)) [
    | inl own_key ↦ own q own_key
    | inr other ↦
        path-set m.capacity m.nodes j w (omega (arith, v.width)) m.capacity _ q used other
          (v.paths q)
  ];
}

-- `get` finds a value under a key exactly if the key has a live slot.
pub view_complete :
    {m : Hashmap} (k : MapKey)
    → IsValid m
    → is_null k.key_base ≡ false
    → is_null (view m k).val_base ≡ true
    → copies m k ≡ 0
view_complete {m} k v named e =
    tally-absent m.capacity m.nodes (get_index m k) k v.width (get_index-lt m k v.room) (
      absent_of_get_loop m.capacity m.capacity m.nodes (get_index m k) k v.values (v.paths k)
        (rw (view-get_loop m k v.usable named) at e))
