-- ===== src/Server/Cream/Tests.antt =====
-- The theorems on multi_thread_server/src/cream.c at a server with a map of two slots.
use linux_system.Prelude.{
  ℕ, ◌≡◌, refl, ap, sym, subst, true, false, Option, none, some, List, [], ◌∷◌, ◌++◌, take, drop,
  inl, arith,
}
use linux_system.Server.Hash.{jenkins_one_at_a_time_hash, jenkins_congr}
use linux_system.Server.Map.{Hashmap, Resources, create_map, empty_node}
use linux_system.Server.Map.Valid.{IsValid}
use linux_system.Server.Map.Clear.{create_map-IsEmpty}
use linux_system.Server.Cream.{
  Rio, Memory, Served, header, ok, handle_request, response_bytes, thread,
}
use linux_system.Server.Cream.Threads.{thread-IsValid}
use linux_system.Server.Cream.Service.{Channel, request, request_bytes}
use linux_system.Server.Cream.RoundTrip.{put-get_round_trip}
use linux_system.Server.Cream.Bounds.{Meets, put_key_out, handle_request-Meets}

-- A connection as the bytes still to come and the bytes written.
abbrev Wire : Type 0
Wire = List ℕ × List ℕ

abbrev wire : Rio Wire
wire = record {
  readn = λ c n. ((drop n c.0, c.1), some (take n c.0));
  writen = λ c b. ((c.0, c.1 ++ b), true);
}

abbrev wire_channel : Channel wire
wire_channel = record {
  incoming = λ c. c.0;
  outgoing = λ c. c.1;
  reads = λ c n le. (refl, refl, refl);
  writes = λ c b. (refl, refl, refl);
}

-- A connection of which every read fails.
abbrev broken_wire : Rio Wire
broken_wire = record { readn = λ c n. (c, none); writen = λ c b. (c, false) }

abbrev dirty : Memory
dirty = record {
  key_memory = 1 ∷ 2 ∷ 3 ∷ [];
  value_memory = 4 ∷ 5 ∷ 6 ∷ [];
  header_memory = 7 ∷ 8 ∷ 9 ∷ [];
}

abbrev granted : Resources
granted = record { map_memory = true; write_lock = true; fields_lock = true; node_memory = true }

abbrev two_slots : Hashmap
two_slots = record {
  capacity = 2;
  size = 0;
  nodes = empty_node ∷ empty_node ∷ [];
  hash_function = jenkins_one_at_a_time_hash;
  invalid = false;
  destroyed = [];
}

content_of : Option Hashmap → Hashmap
content_of none = two_slots
content_of (some m) = m

two_slots-IsValid : IsValid two_slots
unfolding create_map content_of
two_slots-IsValid =
    let (m, runs, _, empty) =
      (create_map-IsEmpty 2 jenkins_one_at_a_time_hash granted (omega arith)
          (λ a b same. (jenkins_congr a b same).0)).0
        refl refl in
    subst IsValid (ap content_of (sym runs)) empty.valid

thread-IsValid_example :
    (m' : Hashmap) × (closed : List Wire) × (thread broken_wire dirty
        (some two_slots)
        ((1 ∷ [], []) ∷ ([], []) ∷ [])
      ≡ some (some m', closed))
    × IsValid m'
thread-IsValid_example =
    thread-IsValid broken_wire dirty ((1 ∷ [], []) ∷ ([], []) ∷ []) two_slots-IsValid

abbrev put_wire : Wire
put_wire = (1 ∷ 2 ∷ 0 ∷ 0 ∷ 0 ∷ 3 ∷ 0 ∷ 0 ∷ 0 ∷ b'i' ∷ b'd' ∷ b'x' ∷ b'y' ∷ b'z' ∷ 99 ∷ [], [])

abbrev get_wire : Wire
get_wire = (2 ∷ 2 ∷ 0 ∷ 0 ∷ 0 ∷ 0 ∷ 0 ∷ 0 ∷ 0 ∷ b'i' ∷ b'd' ∷ [], [])

put-get_round_trip_example :
    (s s' : Served Wire) × (handle_request wire dirty (some two_slots) put_wire ≡ some s)
    × (s.conn.1 ≡ [] ++ response_bytes (header ok 0))
    × (handle_request wire dirty s.map get_wire ≡ some s')
    × (s'.conn.1 ≡ ([] ++ response_bytes (header ok 3)) ++ (b'x' ∷ b'y' ∷ b'z' ∷ []))
put-get_round_trip_example =
    put-get_round_trip wire_channel dirty dirty two_slots put_wire get_wire (b'i' ∷ b'd' ∷ [])
      (b'x' ∷ b'y' ∷ b'z' ∷ []) (99 ∷ []) [] two_slots-IsValid (omega arith) (omega arith)
      (omega arith) (omega arith) (unfold request_bytes in refl) (unfold request_bytes in refl)

-- a PUT of a key of no bytes, with three bytes behind the header
abbrev bad_wire : Wire
bad_wire = (1 ∷ 0 ∷ 0 ∷ 0 ∷ 0 ∷ 3 ∷ 0 ∷ 0 ∷ 0 ∷ b'x' ∷ b'y' ∷ b'z' ∷ [], [])

handle_request-Meets_example :
    (s : Served Wire) × (handle_request wire dirty (some two_slots) bad_wire ≡ some s)
    × Meets wire_channel (some 400) two_slots bad_wire (b'x' ∷ b'y' ∷ b'z' ∷ []) [] s
handle_request-Meets_example =
    handle_request-Meets wire_channel dirty two_slots bad_wire (request 1 0 3)
      (b'x' ∷ b'y' ∷ b'z' ∷ []) [] (some 400) two_slots-IsValid (omega arith) (omega arith)
      (unfold request_bytes in refl) (put_key_out 0 3 (b'x' ∷ b'y' ∷ b'z' ∷ []) (inl refl))
