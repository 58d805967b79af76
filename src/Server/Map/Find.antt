-- ===== src/Server/Map/Find.antt =====
-- `get` and `get_true_index` of multi_thread_server/src/hashmap.c find the same slot, and they
-- find one whenever the key has a live slot.
use linux_system.Prelude.{
  ℕ, zero, suc, ◌<◌, ◌≡◌, refl, inl, inr, true, false, not, some, List, arith, length, Bool-cases,
}
use linux_system.Server.Hash.{is_null, MapKey, same_key}
use linux_system.Server.Map.{MapNode, next_index, slot, index_loop, get_loop}
use linux_system.Server.Map.Walk.{next_index-lt, walk_all, walk_all_slots, tally, tally-eq-zero}
use linux_system.Server.Map.Scan.{is_live, matches, absent, path}

-- Every live slot has a value.
abbrev pub HasValues : List MapNode → Type 0
HasValues nodes =
    (x : ℕ) → is_live (slot nodes x) ≡ true → is_null (slot nodes x).val.val_base ≡ false

-- A search that comes back empty has met no live slot of the key.
pub absent_of_get_loop :
    (r capacity : ℕ) (nodes : List MapNode) (i : ℕ) (k : MapKey)
    → HasValues nodes
    → path r capacity nodes i k ≡ true
    → is_null (get_loop r capacity nodes i k).val_base ≡ true
    → absent r capacity nodes i k ≡ true
unfolding path get_loop walk_all
absent_of_get_loop zero capacity nodes i k values h e = refl
absent_of_get_loop (suc r) capacity nodes i k values h e =
    ground (arith, values i, absent_of_get_loop r capacity nodes (next_index capacity i) k values)

-- What `get` returns comes from the slot that `get_true_index` finds.
pub index_loop-get_loop :
    (r capacity : ℕ) (nodes : List MapNode) (i : ℕ) (k : MapKey)
    → i < capacity
    → is_null (get_loop r capacity nodes i k).val_base ≡ false
    → (j : ℕ) × (index_loop r capacity nodes i k ≡ some j)
      × (j < capacity)
      × (matches k (slot nodes j) ≡ true)
      × (get_loop r capacity nodes i k ≡ (slot nodes j).val)
unfolding get_loop index_loop
index_loop-get_loop zero capacity nodes i k lt e = cc
index_loop-get_loop (suc r) capacity nodes i k lt e =
    elim (Bool-cases (is_null (slot nodes i).key.key_base)) [
      | inl z ↦ cc (rw z at e)
      | inr z ↦ elim (Bool-cases (slot nodes i).tombstone) [
        | inl t ↦
            rw (z, t)
              (index_loop-get_loop r capacity nodes (next_index capacity i) k
                (next_index-lt capacity i lt) (rw (z, t) at e))
        | inr t ↦ elim (Bool-cases (same_key k (slot nodes i).key)) [
          | inl same ↦ (i, ground arith, lt, ground arith, ground arith)
          | inr other ↦
              rw (z, t, other)
                (index_loop-get_loop r capacity nodes (next_index capacity i) k
                  (next_index-lt capacity i lt) (rw (z, t, other) at e))
        ]
      ]
    ]

pub tally-absent :
    (capacity : ℕ) (nodes : List MapNode) (i : ℕ) (k : MapKey)
    → length nodes ≡ capacity
    → i < capacity
    → absent capacity capacity nodes i k ≡ true
    → tally (matches k) nodes ≡ 0
tally-absent capacity nodes i k width lt h = tally-eq-zero (matches k) nodes (λ x lx.
    ground (arith, walk_all_slots (λ n. not (matches k n)) capacity nodes i x h lt (omega arith)))
