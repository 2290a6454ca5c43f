-- ===== src/Cluster.antt =====
-- crates/lk-server/src/cluster.rs: the trait `ClusterBus`, the keys under which the nodes meet, and what
-- the cluster relies on of a bus. The children hold the bus in memory, the routing of rooms to nodes and
-- the relay of signals. The bus on Redis only calls the crate `redis`: it is a bus as a parameter.

pub mod Memory
pub mod Routing
pub mod Steps
pub mod Safety
pub mod Owners
pub mod Relay
pub mod Delivery
pub mod RoundTrip
use Prim.Native.String.{◌++◌ as text_append}
use livekit_rs_voice.Base.{
  ℕ, ◌≡◌, inl, inr, ◌⊎◌, Bool, true, false, List, Option, some, none, String, is_some,
  if◌then◌else◌,
}

-- Result<A, String>
abbrev pub Result : Type 0 → Type 0
Result A = String ⊎ A

-- The id to read after: "$", or a number. The source passes it as a text.
pub data StreamId : Type 0 where
  newest : StreamId
  after : ℕ → StreamId

abbrev pub Fields : Type 0
Fields = List (String × String)

-- The methods take and return the state `S` of the bus. `keys`, which no caller uses, is left out.
pub record ClusterBus (S : Type 0) : Type 0 where
  pub set_with_ttl : String → String → ℕ → S → Result Unit × S
  pub get_key : String → S → Result (Option String) × S
  pub hset : String → String → String → S → Result Unit × S
  pub hsetnx : String → String → String → S → Result Bool × S
  pub hget : String → String → S → Result (Option String) × S
  pub hdel : String → String → S → Result Unit × S
  pub del : String → S → Result Unit × S
  pub xadd : String → Fields → S → Result Unit × S
  pub xread_block : String → StreamId → ℕ → S → Result (Option (List (ℕ × Fields))) × S

-- What the routing relies on: the hashes of a bus have fields that calls read and write whole, and
-- `hsetnx` never replaces one. Any call may fail, and one that failed may have been carried out.
pub record HashLaws {S : Type 0} (bus : ClusterBus S) : Type 0 where
  pub field : S → String → String → Option String
  pub get_key-field : (k h f : String) (s : S) → field (bus.get_key k s).1 h f ≡ field s h f
  pub hget-field : (j g h f : String) (s : S) → field (bus.hget j g s).1 h f ≡ field s h f
  pub hget_reads :
      (h f : String) (o : Option String) (s : S) → (bus.hget h f s).0 ≡ inr o → o ≡ field s h f
  pub hsetnx_keeps :
      (j g v h f w : String) (s : S)
      → field s h f ≡ some w
      → field (bus.hsetnx j g v s).1 h f ≡ some w
  pub hsetnx_wins :
      (h f v : String) (s : S)
      → (bus.hsetnx h f v s).0 ≡ inr true
      → field (bus.hsetnx h f v s).1 h f ≡ some v

abbrev pub node_heartbeat_secs : ℕ
node_heartbeat_secs = 5

abbrev pub node_ttl_secs : ℕ
node_ttl_secs = 15

abbrev pub bus_read_timeout_ms : ℕ
bus_read_timeout_ms = 5000

unfoldable pub node_key : String → String
node_key node_id = text_append "lk:node:" node_id

abbrev pub rooms_key : String
rooms_key = "lk:rooms"

unfoldable pub relay_ctrl : String → String
relay_ctrl node_id = text_append "lk:relay:" (text_append node_id ":ctrl")

unfoldable pub relay_in : String → String
relay_in session_id = text_append "lk:relay:" (text_append session_id ":in")

unfoldable pub relay_out : String → String
relay_out session_id = text_append "lk:relay:" (text_append session_id ":out")

-- unwrap_or_default on the answer of `hget`, and unwrap_or(false).
abbrev pub ok_or_none : Result (Option String) → Option String
ok_or_none (inl e) = none
ok_or_none (inr o) = o

abbrev pub ok_or_false : Result Bool → Bool
ok_or_false (inl e) = false
ok_or_false (inr b) = b

pub record Cluster : Type 0 where
  pub node_id : String
  pub enabled : Bool

module _ {S : Type 0} (bus : ClusterBus S) where
  -- One round of the loop of `start_heartbeat`, which then sleeps.
  unfoldable pub heartbeat : Cluster → S → S
  unfolding node_key
  heartbeat c s = (bus.set_with_ttl (node_key c.node_id) "alive" node_ttl_secs s).1

  unfoldable pub deregister : Cluster → S → S
  unfolding node_key
  deregister c s = if c.enabled then (bus.del (node_key c.node_id) s).1 else s

  unfoldable pub node_alive : String → S → Bool × S
  unfolding node_key
  node_alive node_id s =
      let (answer, s') = bus.get_key (node_key node_id) s in (is_some (ok_or_none answer), s')
