-- ===== src/Server/Map/Overwrite.antt =====
-- What writing one slot does to the searches of multi_thread_server/src/hashmap.c.
use linux_system.Prelude.{
  ℕ, zero, suc, ◌<◌, ◌≡◌, refl, sym, ◌≢◌, ◌⊎◌, inl, inr, true, false, List, arith, length, set,
  Bool-cases, ℕ_discrete,
}
use linux_system.Server.Hash.{is_null, MapKey}
use linux_system.Server.Map.{MapNode, next_index, slot, get_loop}
use linux_system.Server.Map.Walk.{slot-set_self, slot-set_ne, walk_all}
use linux_system.Server.Map.Scan.{matches, absent, path, absent-path, get_loop-absent}

-- The slot `j` of `nodes` is overwritten by `w`, whose key is not NULL.
module _ (capacity : ℕ) (nodes : List MapNode) (j : ℕ) (w : MapNode)
    (inside : j < length nodes) where
  abbrev after : List MapNode
  after = set nodes j w

  slot-after : (i : ℕ) → (i ≡ j) × (slot after i ≡ w) ⊎ (i ≢ j) × (slot after i ≡ slot nodes i)
  slot-after i = elim (ℕ_discrete i j) [
    | yes e ↦ inl (e, rw e (slot-set_self nodes j w inside))
    | no n ↦ inr (n, slot-set_ne nodes j i w (λ e. n (sym e)))
  ]

  -- A slot that does not match a key makes no new match for it.
  pub absent-set :
      (r i : ℕ) (q : MapKey)
      → matches q w ≡ false
      → absent r capacity nodes i q ≡ true
      → absent r capacity after i q ≡ true
  unfolding walk_all
  absent-set zero i q no_match h = refl
  absent-set (suc r) i q no_match h =
      let rest = absent-set r (next_index capacity i) q no_match (ground arith) in
      elim (slot-after i) [
        | inl (_, e) ↦ rw (e, no_match) rest
        | inr (_, e) ↦ rw (e, rest) (ground arith)
      ]

  pub path-set :
      (r i : ℕ) (q : MapKey)
      → is_null w.key.key_base ≡ false
      → matches q w ≡ false
      → path r capacity nodes i q ≡ true
      → path r capacity after i q ≡ true
  unfolding path
  path-set zero i q used no_match h = refl
  path-set (suc r) i q used no_match h = elim (slot-after i) [
    | inl (_, e) ↦
        rw (e, used)
          (elim (Bool-cases (is_null (slot nodes i).key.key_base)) [
            | inl z ↦ absent-path r capacity after _ q (absent-set r _ q no_match (rw z at h))
            | inr z ↦ path-set r (next_index capacity i) q used no_match (rw z at h)
          ])
    | inr (_, e) ↦ rw e (elim (Bool-cases (is_null (slot nodes i).key.key_base)) [
      | inl z ↦ rw z (absent-set r (next_index capacity i) q no_match (rw z at h))
      | inr z ↦ rw z (path-set r (next_index capacity i) q used no_match (rw z at h))
    ])
  ]

  -- A search for a key that neither the old nor the new content matches sees no change.
  pub get_loop-set :
      (r i : ℕ) (q : MapKey)
      → is_null w.key.key_base ≡ false
      → matches q w ≡ false
      → matches q (slot nodes j) ≡ false
      → path r capacity nodes i q ≡ true
      → get_loop r capacity after i q ≡ get_loop r capacity nodes i q
  unfolding get_loop path
  get_loop-set zero i q used no_match no_old h = refl
  get_loop-set (suc r) i q used no_match no_old h =
      let next = next_index capacity i in
      elim (slot-after i) [
        | inl (at_j, e) ↦
            let old : matches q (slot nodes i) ≡ false = rw at_j no_old in
            elim (Bool-cases (is_null (slot nodes i).key.key_base)) [
              | inl z ↦ ground (
                arith,
                e,
                old,
                get_loop-absent r capacity after next q (absent-set r next q no_match (rw z at h)),
              )
              | inr z ↦
                  ground (arith, e, old, get_loop-set r next q used no_match no_old (rw z at h))
            ]
        | inr (_, e) ↦ rw e (elim (Bool-cases (is_null (slot nodes i).key.key_base)) [
          | inl z ↦ rw z
          | inr z ↦ rw (z, get_loop-set r next q used no_match no_old (rw z at h))
        ])
      ]
