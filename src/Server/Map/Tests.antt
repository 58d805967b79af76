-- ===== src/Server/Map/Tests.antt =====
-- Tests of the hash map, and its theorems at concrete maps. Every key of these maps hashes to 0.
use linux_system.Prelude.{
  ℕ, zero, suc, ◌<◌, ◌^◌, ◌≡◌, refl, ◌↔◌, Bool, true, false, none, some, [], ◌∷◌, ◌++◌, arith,
}
use mathlib.Core.List.{reverse}
use linux_system.Server.Hash.{
  is_null, MapKey, same_key, memcmp_zero, jenkins_one_at_a_time_hash, jenkins_congr,
}
use linux_system.Server.Map.{
  Hashmap, MapNode, MapVal, Outcome, einval, empty_node, null_val, slot, get_index, next_index,
  create_map, put, put_loop, put_free, put_evict, get, get_loop, get_true_index, index_loop, delete,
  bury, clear_map, clear_nodes, clear_destroyed, invalidate_map, Resources,
}
use linux_system.Server.Map.Walk.{walk_all, tally}
use linux_system.Server.Map.Scan.{is_live, matches, path}
use linux_system.Server.Map.Find.{HasValues}
use linux_system.Server.Map.Valid.{IsValid, view}
use linux_system.Server.Map.Delete.{Removes, delete-Removes, delete-missing}
use linux_system.Server.Map.Drift.{put-delete_stale, put_overcounts}
use linux_system.Server.Map.Clear.{IsEmpty, entries, clear_map-IsEmpty, invalidate_map-refuses}
use linux_system.Server.Map.Client.{run, run-IsValid, put_call, delete_call, clear_call}
use linux_system.Server.Map.Put.{Reads, put_free-Reads, put_evict-Reads, put-false_iff, refuses}

abbrev key_of : ℕ → MapKey
key_of c = record { key_base = some (c ∷ []); key_len = 1 }

abbrev val_of : ℕ → MapVal
val_of c = record { val_base = some (c ∷ []); val_len = 1 }

abbrev entry : ℕ → ℕ → Bool → MapNode
entry k x dead = record { key = key_of k; val = val_of x; tombstone = dead }

-- `a` and `b` live, `c` deleted, one slot never used
abbrev sample : Hashmap
sample = record {
  capacity = 4;
  size = 2;
  nodes = entry b'a' 1 false ∷ entry b'b' 2 false ∷ entry b'c' 3 true ∷ empty_node ∷ [];
  hash_function = λ _. 0;
  invalid = false;
  destroyed = [];
}

-- `b` live behind the tombstone of `a`
abbrev behind : Hashmap
behind = record {
  capacity = 3;
  size = 1;
  nodes = entry b'a' 1 true ∷ entry b'b' 2 false ∷ empty_node ∷ [];
  hash_function = λ _. 0;
  invalid = false;
  destroyed = [];
}

-- no room
abbrev packed : Hashmap
packed = record {
  capacity = 2;
  size = 2;
  nodes = entry b'a' 1 false ∷ entry b'b' 2 false ∷ [];
  hash_function = λ _. 0;
  invalid = false;
  destroyed = [];
}

-- What a test computes with.
code : Unit {0}
unfolding create_map put put_loop put_free put_evict get get_loop get_true_index index_loop delete
    bury clear_map clear_nodes clear_destroyed invalidate_map slot get_index next_index walk_all
    tally path same_key memcmp_zero
code = tt

sample-HasValues : HasValues sample.nodes
unfolding code
sample-HasValues zero live = refl
sample-HasValues (suc zero) live = refl
sample-HasValues (suc (suc zero)) live = refl
sample-HasValues (suc (suc (suc zero))) live = cc
sample-HasValues (suc (suc (suc (suc x)))) live = cc

sample-IsValid : IsValid sample
unfolding code
sample-IsValid = record {
  usable = refl;
  room = omega arith;
  small = omega arith;
  width = refl;
  counted = omega arith;
  fits = omega arith;
  values = sample-HasValues;
  hash_congr = λ a b h. refl;
  paths = λ k. refl;
}

behind-HasValues : HasValues behind.nodes
unfolding code
behind-HasValues zero live = cc
behind-HasValues (suc zero) live = refl
behind-HasValues (suc (suc zero)) live = cc
behind-HasValues (suc (suc (suc x))) live = cc

behind-IsValid : IsValid behind
unfolding code
behind-IsValid = record {
  usable = refl;
  room = omega arith;
  small = omega arith;
  width = refl;
  counted = omega arith;
  fits = omega arith;
  values = behind-HasValues;
  hash_congr = λ a b h. refl;
  paths = λ k. refl;
}

packed-HasValues : HasValues packed.nodes
unfolding code
packed-HasValues zero live = refl
packed-HasValues (suc zero) live = refl
packed-HasValues (suc (suc x)) live = cc

packed-IsValid : IsValid packed
unfolding code
packed-IsValid = record {
  usable = refl;
  room = omega arith;
  small = omega arith;
  width = refl;
  counted = omega arith;
  fits = omega arith;
  values = packed-HasValues;
  hash_congr = λ a b h. refl;
  paths = λ k. refl;
}

-- `put` of a new key takes the tombstone, and `get` finds it.
get-put-sample :
    (put (some sample) (key_of b'd') (val_of 4) false)
    ≡ some (record {
      self = some (record sample {
        size = 3;
        nodes = entry b'a' 1 false ∷ entry b'b' 2 false ∷ entry b'd' 4 false ∷ empty_node ∷ [];
      });
      returns = true;
      errno = none;
    })
unfolding code
get-put-sample = refl

put_free-Reads_example :
    (m' : Hashmap) × (put (some sample) (key_of b'd') (val_of 4) false
      ≡ some (record { self = some m'; returns = true; errno = none }))
    × IsValid m'
    × (m'.size ≡ 3)
    × (m'.destroyed ≡ [])
    × Reads sample (key_of b'd') (val_of 4) m'
put_free-Reads_example =
    put_free-Reads (key_of b'd') (val_of 4) false sample-IsValid refl refl (omega arith)

put_evict-Reads_example :
    (m' : Hashmap) × (put (some packed) (key_of b'c') (val_of 3) true
      ≡ some (record { self = some m'; returns = true; errno = none }))
    × IsValid m'
    × (m'.size ≡ 2)
    × (m'.destroyed ≡ (key_of b'a', val_of 1) ∷ [])
    × ((q : MapKey)
        → is_null q.key_base ≡ false
        → (same_key (key_of b'c') q ≡ true → view m' q ≡ val_of 3)
          × (same_key (key_of b'c') q ≡ false
              → matches q (entry b'a' 1 false) ≡ false
              → view m' q ≡ view packed q))
unfolding code
put_evict-Reads_example = put_evict-Reads (key_of b'c') (val_of 3) packed-IsValid refl refl refl

put-false_iff_example :
    (o : Outcome Bool) × (put (some packed) (key_of b'c') (val_of 3) false ≡ some o)
    × ((o.returns ≡ false) ↔ (refuses packed (key_of b'c') (val_of 3) false ≡ true))
    × (o.returns ≡ false → o.self ≡ some packed)
put-false_iff_example = put-false_iff (key_of b'c') (val_of 3) false packed-IsValid

delete-Removes_example :
    (m' : Hashmap) × (node : MapNode) × (delete (some sample) (key_of b'a')
      ≡ record { self = some m'; returns = node; errno = none })
    × Removes sample (key_of b'a') m' node
delete-Removes_example = delete-Removes (key_of b'a') sample-IsValid refl (unfold code in refl)

delete-missing_example :
    delete (some sample) (key_of b'c')
    ≡ record { self = some sample; returns = empty_node; errno = some einval }
delete-missing_example = delete-missing {m = sample} (key_of b'c') (unfold code in refl)

put-delete_stale_example :
    (m' m'' : Hashmap) × (node : MapNode) × (put (some behind) (key_of b'b') (val_of 9) true
      ≡ some (record { self = some m'; returns = true; errno = none }))
    × (delete (some m') (key_of b'b') ≡ record { self = some m''; returns = node; errno = none })
    × (node.val ≡ val_of 9)
    × (is_null (view m'' (key_of b'b')).val_base ≡ false)
put-delete_stale_example =
    put-delete_stale (key_of b'b') (val_of 9) true behind-IsValid refl refl (omega arith)
      (unfold code in refl) (unfold code in omega arith)

put_overcounts_example :
    (m' : Hashmap) × (put (some sample) (key_of b'a') (val_of 7) true
      ≡ some (record { self = some m'; returns = true; errno = none }))
    × (m'.size ≡ 3)
    × (tally is_live m'.nodes ≡ tally is_live sample.nodes)
put_overcounts_example =
    put_overcounts (key_of b'a') (val_of 7) true sample-IsValid refl refl (omega arith)
      (unfold code in refl)

abbrev granted : Resources
granted = record { map_memory = true; write_lock = true; fields_lock = true; node_memory = true }

clear_map-IsEmpty_example :
    (m' : Hashmap) × (clear_map (some sample)
      ≡ record { self = some m'; returns = true; errno = none })
    × IsEmpty m'
    × (m'.destroyed ≡ reverse (entries sample.nodes) ++ [])
clear_map-IsEmpty_example = clear_map-IsEmpty sample-IsValid

invalidate_map-refuses_example :
    (m' : Hashmap) × (invalidate_map (some sample)
      ≡ record { self = some m'; returns = false; errno = none })
    × (m'.destroyed ≡ [])
    × ((k : MapKey) (x : MapVal) (force : Bool)
        → put (some m') k x force
          ≡ some (record { self = some m'; returns = false; errno = some einval }))
    × ((k : MapKey)
        → get (some m') k ≡ record { self = some m'; returns = null_val; errno = some einval })
    × ((k : MapKey)
        → delete (some m') k ≡ record { self = some m'; returns = empty_node; errno = some einval })
    × (clear_map (some m') ≡ record { self = some m'; returns = false; errno = some einval })
    × (invalidate_map (some m') ≡ record { self = some m'; returns = false; errno = some einval })
invalidate_map-refuses_example = invalidate_map-refuses sample-IsValid

run-IsValid_example :
    (m' : Hashmap) × (run
        (some sample)
        (put_call (key_of b'b') (val_of 5) true ∷ delete_call (key_of b'b') ∷ clear_call ∷ [])
      ≡ some m')
    × IsValid m'
run-IsValid_example =
    run-IsValid
      (put_call (key_of b'b') (val_of 5) true ∷ delete_call (key_of b'b') ∷ clear_call ∷ [])
      sample-IsValid

jenkins_congr_example :
    (jenkins_one_at_a_time_hash (key_of b'a') ≡ jenkins_one_at_a_time_hash (key_of b'a'))
    × (jenkins_one_at_a_time_hash (key_of b'a') < 2 ^ 32)
jenkins_congr_example = jenkins_congr (key_of b'a') (key_of b'a') (unfold code in refl)

-- The hash of "a" by the reference implementation.
jenkins_a : jenkins_one_at_a_time_hash (key_of b'a') ≡ 0xca2e9442
unfolding jenkins_one_at_a_time_hash
jenkins_a = refl
