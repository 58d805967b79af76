-- ===== src/Server/Expiring/Tests.antt =====
-- The theorems on multi_thread_server/src/extracredit.c at a map with an old and a new entry.
use linux_system.Prelude.{refl, none, true, ℕ, ◌≡◌, false, some, [], ◌∷◌}
use linux_system.Server.Map.{null_val}
use linux_system.Server.Expiring.{TimedMap, TimedNode, timed_put, timed_get, is_expired}
use linux_system.Server.Expiring.Stale.{one_slot, timed_put-get_stale}
use linux_system.Server.Expiring.Fresh.{Fresh}

abbrev entry_at : ℕ → ℕ → TimedNode
entry_at c start = record {
  key = record { key_base = some (c ∷ []); key_len = 1 };
  val = record { val_base = some (c ∷ c ∷ []); val_len = 2 };
  start = start;
  tombstone = false;
}

-- With ten ticks a second, at the time 100 the first entry is ten seconds old, the second one.
abbrev two_ages : TimedMap
two_ages = record {
  capacity = 2;
  size = 2;
  nodes = entry_at b'a' 0 ∷ entry_at b'b' 90 ∷ [];
  hash_function = λ _. 0;
  invalid = false;
  destroyed = [];
}

timed_put-get_stale_example :
    (m' : TimedMap) × (timed_put 100
        (some (one_slot (λ _. 0) (entry_at b'a' 0) []))
        (entry_at b'b' 0).key
        (entry_at b'b' 0).val
        true
      ≡ some (record { self = some m'; returns = true; errno = none }))
    × (m'.destroyed ≡ ((entry_at b'a' 0).key, (entry_at b'a' 0).val) ∷ [])
    × ((timed_get 10 (λ _. 101) (some m') (entry_at b'b' 0).key).returns ≡ null_val)
timed_put-get_stale_example =
    timed_put-get_stale 10 (λ _. 101) (λ _. 0) (entry_at b'a' 0) [] 100 (entry_at b'b' 0).key
      (entry_at b'b' 0).val refl refl (unfold is_expired in refl)
