-- ===== src/Server/Cream/Threads.antt =====
-- The life of the server of multi_thread_server/src/cream.c: `server_init`, and then a worker on
-- one connection after the other.
use linux_system.Prelude.{
  ℕ, ◌^◌, ◌<◌, ◌≡◌, refl, ap, ap₂, ◌∙◌, true, ◌&&◌, Option, some, List, [], ◌∷◌, arith,
}
use linux_system.Server.Hash.{jenkins_one_at_a_time_hash, jenkins_congr}
use linux_system.Server.Map.{Hashmap, Resources}
use linux_system.Server.Map.Valid.{IsValid}
use linux_system.Server.Map.Clear.{IsEmpty, create_map-IsEmpty}
use linux_system.Server.Queue.{Queue}
use linux_system.Server.Queue.Fifo.{Holds, create_queue-Holds}
use linux_system.Server.Cream.{Rio, Memory, Served, handle_request, thread, server_init}
use linux_system.Server.Cream.Requests.{handle_request-Keeps}

-- With a number of entries from 1 to 2 ^ 31 - 1, and all memory and locks given, `server_init`
-- sets up an empty queue in its invariant, and an empty map that is valid and of that capacity.
pub server_init-starts :
    (max_entries : ℕ) (r : Resources)
    → 0 < max_entries
    → max_entries < 2 ^ 31
    → (r.map_memory && r.write_lock && r.fields_lock && r.node_memory) ≡ true
    → (q : Queue) × (m : Hashmap) × (server_init max_entries true true true r ≡ (some q, some m))
      × Holds q 0 []
      × (m.capacity ≡ max_entries)
      × IsEmpty m
unfolding server_init
server_init-starts max_entries r pos small given =
    let (q, queue_runs, holds) = (create_queue-Holds true true true).0 refl in
    let (m, map_runs, capacity, empty) =
      (create_map-IsEmpty max_entries jenkins_one_at_a_time_hash r small
          (λ a b same. (jenkins_congr a b same).0)).0
        (ground arith) given in
    (q, m, ap₂ (λ x y. (x, y)) queue_runs map_runs, holds, capacity, empty)

thread-step :
    {Conn : Type 0} (rio : Rio Conn) (mem : Memory) (m : Option Hashmap) (c : Conn) (cs : List Conn)
    (s : Served Conn) (m' : Option Hashmap) (closed : List Conn)
    → handle_request rio mem m c ≡ some s
    → thread rio mem s.map cs ≡ some (m', closed)
    → thread rio mem m (c ∷ cs) ≡ some (m', s.conn ∷ closed)
unfolding thread
thread-step rio mem m c cs s m' closed e f = ground arith

-- A worker gets through any connections, whatever their clients send and wherever their reads and
-- writes fail: each request ends, and the map stays valid.
pub thread-IsValid :
    {Conn : Type 0} (rio : Rio Conn) (mem : Memory) (cs : List Conn) {m : Hashmap}
    → IsValid m
    → (m' : Hashmap) × (closed : List Conn) × (thread rio mem (some m) cs ≡ some (some m', closed))
      × IsValid m'
unfolding thread
thread-IsValid rio mem [] {m} v = (m, [], refl, v)
thread-IsValid rio mem (c ∷ cs) {m} v =
    let (s, runs, m₁, left, valid) = handle_request-Keeps rio v mem c in
    let (m', closed, rest, last) = thread-IsValid rio mem cs valid in
    (
      m',
      s.conn ∷ closed,
      thread-step rio mem (some m) c cs s (some m') closed runs
          (ap (λ o. thread rio mem o cs) left ∙ rest),
      last,
    )
