-- ===== src/Server/Expiring/Fresh.antt =====
-- What `get` of multi_thread_server/src/extracredit.c returns.
use linux_system.Prelude.{ℕ, ◌≡◌, true, false, List}
use linux_system.Server.Hash.{MapKey, same_key}
use linux_system.Server.Map.{MapVal}
use linux_system.Server.Expiring.{TimedNode, timed_slot, is_expired}

-- Some live slot that had not expired when it was read holds the key and the value.
abbrev pub Fresh : ℕ → (ℕ → ℕ) → List TimedNode → MapKey → MapVal → Type 0
Fresh per_second clock nodes key val =
    (j t : ℕ) × ((timed_slot nodes j).tombstone ≡ false)
    × (is_expired per_second (clock t) (timed_slot nodes j) ≡ false)
    × (same_key key (timed_slot nodes j).key ≡ true)
    × ((timed_slot nodes j).val ≡ val)
