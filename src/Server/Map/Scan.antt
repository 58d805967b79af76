-- ===== src/Server/Map/Scan.antt =====
-- The search loops of multi_thread_server/src/hashmap.c: what a slot is to a key, where the loop
-- of `put` stops, and what a written slot does to the other searches.
use linux_system.Prelude.{
  ℕ, zero, suc, ◌<◌, ◌≡◌, refl, inl, inr, Bool, true, false, not, ◌&&◌, ◌||◌, Option, none, some,
  List, arith, if◌then◌else◌, set, Bool-cases,
}
use linux_system.Server.Hash.{is_null, MapKey, same_key, same_key_congr}
use linux_system.Server.Map.{MapNode, MapVal, null_val, next_index, slot, put_loop, get_loop}
use linux_system.Server.Map.Walk.{next_index-lt, walk_all}

-- A slot is live while it holds an entry.
abbrev pub is_live : MapNode → Bool
is_live n = not (is_null n.key.key_base) && not n.tombstone

-- The live slots of a key.
abbrev pub matches : MapKey → MapNode → Bool
matches k n = is_live n && same_key k n.key

-- Where the loop of `put` stops.
abbrev pub stops : MapKey → MapNode → Bool
stops k n = is_null n.key.key_base || n.tombstone || same_key k n.key

pub matches_congr : (k q : MapKey) (n : MapNode) → same_key k q ≡ true → matches k n ≡ matches q n
matches_congr k q n h = rw (same_key_congr k q n.key h)

-- The loop of `put` finds a slot and writes it.
unfoldable pub put_slot : ℕ → ℕ → List MapNode → ℕ → MapKey → Option ℕ
put_slot zero capacity nodes i k = none
put_slot (suc f) capacity nodes i k =
    let rest = put_slot f capacity nodes (next_index capacity i) k in
    if stops k (slot nodes i) then some i else rest

abbrev pub written : MapNode → MapKey → MapVal → MapNode
written n k v =
    if is_null n.key.key_base || n.tombstone
    then record { key = k; val = v; tombstone = false }
    else record n { val = v; tombstone = false }

abbrev pub write_at : List MapNode → MapKey → MapVal → Option ℕ → Option (List MapNode)
write_at nodes k v none = none
write_at nodes k v (some j) = some (set nodes j (written (slot nodes j) k v))

pub put_loop-put_slot :
    (f capacity : ℕ) (nodes : List MapNode) (i : ℕ) (k : MapKey) (v : MapVal)
    → put_loop f capacity nodes i k v ≡ write_at nodes k v (put_slot f capacity nodes i k)
unfolding put_loop put_slot
put_loop-put_slot zero capacity nodes i k v = refl
put_loop-put_slot (suc f) capacity nodes i k v =
    ground (arith, put_loop-put_slot f capacity nodes (next_index capacity i) k v)

pub put_slot-stops :
    (f capacity : ℕ) (nodes : List MapNode) (i : ℕ) (k : MapKey) (j : ℕ)
    → put_slot f capacity nodes i k ≡ some j
    → i < capacity
    → (stops k (slot nodes j) ≡ true) × (j < capacity)
unfolding put_slot
put_slot-stops zero capacity nodes i k j h lt = cc
put_slot-stops (suc f) capacity nodes i k j h lt = elim (Bool-cases (stops k (slot nodes i))) [
  | inl here ↦ let e : i ≡ j = ground arith in (rw (← e) here, omega arith)
  | inr on ↦
      put_slot-stops f capacity nodes (next_index capacity i) k j (ground arith)
        (next_index-lt capacity i lt)
]

pub put_slot-none :
    (f capacity : ℕ) (nodes : List MapNode) (i : ℕ) (k : MapKey)
    → put_slot f capacity nodes i k ≡ none
    → walk_all is_live f capacity nodes i ≡ true
unfolding put_slot walk_all
put_slot-none zero capacity nodes i k h = refl
put_slot-none (suc f) capacity nodes i k h =
    ground (arith, put_slot-none f capacity nodes (next_index capacity i) k)

-- No slot of the next `r` is live with the key.
abbrev pub absent : ℕ → ℕ → List MapNode → ℕ → MapKey → Bool
absent r capacity nodes i k = walk_all (λ n. not (matches k n)) r capacity nodes i

-- No live slot of the key lies behind a slot that was never used.
unfoldable pub path : ℕ → ℕ → List MapNode → ℕ → MapKey → Bool
path zero capacity nodes i k = true
path (suc r) capacity nodes i k =
    if is_null (slot nodes i).key.key_base
    then absent r capacity nodes (next_index capacity i) k
    else path r capacity nodes (next_index capacity i) k

pub absent-path :
    (r capacity : ℕ) (nodes : List MapNode) (i : ℕ) (k : MapKey)
    → absent r capacity nodes i k ≡ true
    → path r capacity nodes i k ≡ true
unfolding walk_all path
absent-path zero capacity nodes i k h = refl
absent-path (suc r) capacity nodes i k h =
    ground (arith, absent-path r capacity nodes (next_index capacity i) k)

pub get_loop-absent :
    (r capacity : ℕ) (nodes : List MapNode) (i : ℕ) (k : MapKey)
    → absent r capacity nodes i k ≡ true
    → get_loop r capacity nodes i k ≡ null_val
unfolding walk_all get_loop
get_loop-absent zero capacity nodes i k h = refl
get_loop-absent (suc r) capacity nodes i k h =
    ground (arith, get_loop-absent r capacity nodes (next_index capacity i) k)

-- Keys that compare equal have the same path.
pub absent_congr :
    (r capacity : ℕ) (nodes : List MapNode) (i : ℕ) (k q : MapKey)
    → same_key k q ≡ true
    → absent r capacity nodes i k ≡ absent r capacity nodes i q
unfolding walk_all
absent_congr zero capacity nodes i k q h = refl
absent_congr (suc r) capacity nodes i k q h = rw (
  matches_congr k q (slot nodes i) h,
  absent_congr r capacity nodes (next_index capacity i) k q h,
)

pub path_congr :
    (r capacity : ℕ) (nodes : List MapNode) (i : ℕ) (k q : MapKey)
    → same_key k q ≡ true
    → path r capacity nodes i k ≡ path r capacity nodes i q
unfolding path
path_congr zero capacity nodes i k q h = refl
path_congr (suc r) capacity nodes i k q h = rw (
  absent_congr r capacity nodes (next_index capacity i) k q h,
  path_congr r capacity nodes (next_index capacity i) k q h,
)
