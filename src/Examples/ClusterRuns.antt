-- ===== src/Examples/ClusterRuns.antt =====
-- Tests and instances of the theorems on the cluster (crates/lk-server/src/cluster.rs).
use livekit_rs_voice.Base.{
  ◌≡◌, refl, true, not, ◌&&◌, inr, List, [], ◌∷◌, ◌++◌, map, Option, some, String, arith,
  if◌then◌else◌, is_some, get, insert,
}
use livekit_rs_voice.Cluster.{relay_in, newest, heartbeat, node_key}
use livekit_rs_voice.Cluster.Memory.{
  MemoryBus, memory_bus, empty_bus, memory_bus-HashLaws, memory_xread_block, memory_hsetnx,
  memory_hget, memory_set_with_ttl,
}
use livekit_rs_voice.Cluster.Routing.{local, remote, settled, reading, route_room, route_step}
use livekit_rs_voice.Cluster.Safety.{
  Routes, node, put_route, Runs, more, done, acts, all_reading, Runs-one_host,
}
use livekit_rs_voice.Cluster.Owners.{owner_of, host_by_owner, claimed, route_room_lem}
use livekit_rs_voice.Cluster.Relay.{Reply, relay_reader, pump, request_fields, close_fields}
use livekit_rs_voice.Cluster.Delivery.{session_requests, delivered, session_requests-delivered}
use livekit_rs_voice.Cluster.RoundTrip.{pump-session_requests}

abbrev World : Type 0
World = Routes × MemoryBus

abbrev moved : String → World → World
moved n (routes, s) = (
  put_route n (route_step memory_bus (node n) "lobby" (routes n) s).0 routes,
  (route_step memory_bus (node n) "lobby" (routes n) s).1,
)

abbrev start : World
start = (all_reading, empty_bus)

-- Both nodes read, then both claim: A is first.
abbrev both_read : World
both_read = moved "B" (moved "A" start)

abbrev both_claimed : World
both_claimed = moved "B" (moved "A" both_read)

both_claimed-Runs : Runs memory_bus-HashLaws "lobby" start both_claimed
both_claimed-Runs = more (acts "A" start.0 start.1) (
    more (acts "B" (moved "A" start).0 (moved "A" start).1) (
      more (acts "A" both_read.0 both_read.1)
        (more (acts "B" (moved "A" both_read).0 (moved "A" both_read).1) (done both_claimed))))

a_hosts : both_claimed.0 "A" ≡ settled local
unfolding route_step memory_hsetnx memory_hget get insert
a_hosts = refl

b_reads_again : both_claimed.0 "B" ≡ reading 7
unfolding route_step memory_hsetnx memory_hget get insert
b_reads_again = refl

Runs-one_host_example : ◌≡◌ {A = String} "A" "A"
Runs-one_host_example =
    Runs-one_host memory_bus-HashLaws "lobby" empty_bus both_claimed.1 both_claimed.0 "A" "A"
      both_claimed-Runs a_hosts a_hosts

abbrev a_owns : MemoryBus
a_owns = claimed (node "A") "lobby" empty_bus

-- A has no heartbeat: B hosts the room too, and A stays its owner.
route_room_lem_example : route_room memory_bus (node "B") "lobby" a_owns ≡ (
  if true then host_by_owner (node "B") (owner_of "lobby" a_owns) a_owns else local,
  if true && not (is_some (owner_of "lobby" a_owns))
      then claimed (node "B") "lobby" a_owns
      else a_owns,
)
route_room_lem_example = route_room_lem (node "B") "lobby" a_owns

two_hosts : route_room memory_bus (node "B") "lobby" a_owns ≡ (local, a_owns)
unfolding get insert
two_hosts = route_room_lem (node "B") "lobby" a_owns

-- With a heartbeat of A, B is sent there.
abbrev a_alive : MemoryBus
a_alive = heartbeat memory_bus (node "A") a_owns

a_is_asked : route_room memory_bus (node "B") "lobby" a_alive ≡ (remote "A", a_alive)
unfolding get insert heartbeat memory_set_with_ttl node_key
a_is_asked = route_room_lem (node "B") "lobby" a_alive

-- Texts that are their own encoding.
abbrev decode_text : String → Option String
decode_text t = some t

abbrev replies : List Reply
replies =
    inr (some ((1, request_fields "ping") ∷ []))
    ∷ inr (some ((2, request_fields "mute") ∷ (3, close_fields) ∷ []))
    ∷ []

session_requests-delivered_example :
    session_requests decode_text 3 replies relay_reader
    ≡ relay_reader.pending ++ delivered decode_text replies
unfolding relay_reader get insert
session_requests-delivered_example =
    session_requests-delivered decode_text 3 replies relay_reader (omega arith)

-- The request that comes with the close is dropped.
mute_is_dropped : delivered decode_text replies ≡ "ping" ∷ []
unfolding get insert
mute_is_dropped = refl

pump-session_requests_example :
    session_requests decode_text 2
      ((memory_xread_block
          (relay_in "c1")
          newest
          5000
          (pump memory_bus "c1" (map (λ t. t) ("ping" ∷ "mute" ∷ [])) empty_bus)).0
        ∷ [])
      relay_reader
    ≡ "ping" ∷ "mute" ∷ []
unfolding get
pump-session_requests_example =
    pump-session_requests (λ t. t) decode_text "c1" 5000 ("ping" ∷ "mute" ∷ []) empty_bus
      (λ t. refl) refl
