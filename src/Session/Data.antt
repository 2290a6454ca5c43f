-- ===== src/Session/Data.antt =====
-- crates/lk-server/src/signal.rs, `handle_incoming_data`: a data packet of a participant goes to the
-- others. A packet is one that has been decoded; what is sent is a list of sids with the packet for
-- each, which media.rs puts on the data channel.
use livekit_rs_voice.Base.{
  ℕ, ◌≡◌, inl, inr, refl, Bool, true, false, not, ◌&&◌, ◌||◌, List, [], ◌∷◌, map, Option, none,
  some, String, str_eq, eq_iff, eq_refl, arith, if◌then◌else◌, any_of, select, length, ◌+◌, ◌==◌,
  All, get, Bool-cases, any_of-values-find, any_of-values-get, if_cases,
}
use livekit_rs_voice.Participant.{Participant}
use livekit_rs_voice.Room.{Room, everyone}
use livekit_rs_voice.Room.Membership.{IsConsistent}

-- A user packet has destinations of its own; the other kinds are one here.
pub data PacketValue : Type 0 where
  user : List ℕ → List String → PacketValue
  other : PacketValue

pub record DataPacket : Type 0 where
  pub kind : ℕ
  pub participant_identity : String
  pub participant_sid : String
  pub destination_identities : List String
  pub value : PacketValue

-- DataPacket.Kind: RELIABLE is 0, LOSSY is 1.
abbrev pub kind_of : Bool → ℕ
kind_of true = 1
kind_of false = 0

abbrev pub default_to : String → String → String
default_to given default = if str_eq given "" then default else given

-- The packet as it goes out: its kind is the channel's, and a hidden sender is not named.
unfoldable pub normalize : Participant → Bool → DataPacket → DataPacket
normalize p lossy packet =
    if p.permission.hidden
    then record packet { kind = kind_of lossy; participant_identity = ""; participant_sid = "" }
    else record packet {
      kind = kind_of lossy;
      participant_identity = default_to packet.participant_identity p.identity;
      participant_sid = default_to packet.participant_sid p.sid;
    }

abbrev pub destination_sids : PacketValue → List String
destination_sids (user payload sids) = sids
destination_sids other = []

abbrev pub is_empty_list : List String → Bool
is_empty_list [] = true
is_empty_list (x ∷ xs) = false

abbrev pub holds : String → List String → Bool
holds s xs = any_of (λ x. str_eq x s) xs

-- The packet is for everybody, or names the identity or the sid.
unfoldable pub is_for : DataPacket → String → String → Bool
is_for packet sid identity =
    (is_empty_list packet.destination_identities && is_empty_list (destination_sids packet.value))
    || holds identity packet.destination_identities
    || holds sid (destination_sids packet.value)

abbrev pub is_target : Participant → DataPacket → Participant → Bool
is_target p out q = not (str_eq q.sid p.sid) && is_for out q.sid q.identity

unfoldable pub handle_incoming_data :
    Participant → Bool → Option DataPacket → Option Room → List (String × DataPacket)
unfolding normalize is_for
handle_incoming_data p lossy none room = []
handle_incoming_data p lossy (some packet) none = []
handle_incoming_data p lossy (some packet) (some r) =
    if not p.permission.can_publish_data
    then []
    else let out = normalize p lossy packet in
      map (λ q. (q.sid, out)) (select (is_target p out) (everyone r))

abbrev pub goes_to : String → String × DataPacket → Bool
goes_to sid (s, out) = str_eq s sid

any_of-sent :
    (sid : String) (out : DataPacket) (test : Participant → Bool) (ps : List Participant)
    → any_of (goes_to sid) (map (λ q. (q.sid, out)) (select test ps))
      ≡ any_of (λ q. test q && str_eq q.sid sid) ps
any_of-sent sid out test [] = refl
any_of-sent sid out test (q ∷ ps) = ground (arith, any_of-sent sid out test ps)

All-sent :
    (P : DataPacket → Type 0) (out : DataPacket) (ps : List Participant)
    → P out
    → All (λ (m : String × DataPacket). P m.1) (map (λ q. (q.sid, out)) ps)
All-sent P out [] h = tt
All-sent P out (q ∷ ps) h = (h, All-sent P out ps h)

-- In a consistent room a test is passed under a sid exactly when the participant there passes it.
any_of-at_sid :
    (test : Participant → Bool) (sid : String) (q : Participant) (r : Room)
    → IsConsistent r
    → get sid r.participants ≡ some q
    → any_of (λ x. test x && str_eq x.sid sid) (everyone r) ≡ test q
any_of-at_sid test sid q r ok found =
    let here : Participant → Bool = λ x. test x && str_eq x.sid sid in
    let own : q.sid ≡ sid = ok.keyed sid q found in
    elim (Bool-cases (any_of here (everyone r))) [
      | inl some_passes ↦
          let (s, v, at_s, passes) =
            any_of-values-find here r.participants ok.distinct some_passes in
          ground (arith, passes, at_s, found, own, eq_iff v.sid sid, ok.keyed s v at_s)
      | inr none_passes ↦ ground (
        arith,
        none_passes,
        own,
        eq_refl sid,
        any_of-values-get here sid q r.participants found none_passes,
      )
    ]

is_for-normalize :
    (p : Participant) (lossy : Bool) (packet : DataPacket) (sid identity : String)
    → is_for (normalize p lossy packet) sid identity ≡ is_for packet sid identity
unfolding normalize is_for
is_for-normalize p lossy packet sid identity = ground arith

-- How many destinations a packet names.
abbrev pub destination_count : DataPacket → ℕ
destination_count packet =
    length packet.destination_identities + length (destination_sids packet.value)

is_empty_list-length : (xs : List String) → is_empty_list xs ≡ (length xs == 0)
is_empty_list-length [] = refl
is_empty_list-length (x ∷ xs) = ground arith

is_for-destinations :
    (packet : DataPacket) (sid identity : String)
    → is_for packet sid identity ≡ (
        destination_count packet == 0
        || any_of (λ i. str_eq i identity) packet.destination_identities
        || any_of (λ d. str_eq d sid) (destination_sids packet.value))
unfolding is_for
is_for-destinations packet sid identity = ground (
  arith,
  is_empty_list-length packet.destination_identities,
  is_empty_list-length (destination_sids packet.value),
)

-- A packet reaches a participant of the room exactly when its sender may publish data, is not that
-- participant, and the packet names no destination at all, neither identities nor sids, or names the
-- participant's identity or sid.
pub handle_incoming_data_iff :
    (p q : Participant) (lossy : Bool) (packet : DataPacket) (r : Room) (sid : String)
    → IsConsistent r
    → get sid r.participants ≡ some q
    → any_of (goes_to sid) (handle_incoming_data p lossy (some packet) (some r)) ≡ (
        p.permission.can_publish_data
        && not (str_eq sid p.sid)
        && (destination_count packet == 0
            || any_of (λ i. str_eq i q.identity) packet.destination_identities
            || any_of (λ d. str_eq d sid) (destination_sids packet.value)))
unfolding handle_incoming_data
handle_incoming_data_iff p q lossy packet r sid ok found =
    let out : DataPacket = normalize p lossy packet in
    ground (
      arith,
      any_of-sent sid out (is_target p out) (everyone r),
      any_of-at_sid (is_target p out) sid q r ok found,
      is_for-normalize p lossy packet sid q.identity,
      is_for-destinations packet sid q.identity,
      ok.keyed sid q found,
    )

-- What a packet says of its sender: nothing if the sender is hidden, and else what the sender wrote
-- there, its own identity and sid only where it wrote nothing.
abbrev pub NamesSender : Participant → DataPacket → DataPacket → Type 0
NamesSender p packet out =
    (out.participant_identity
      ≡ (if p.permission.hidden then "" else default_to packet.participant_identity p.identity))
    × (out.participant_sid
        ≡ (if p.permission.hidden then "" else default_to packet.participant_sid p.sid))

normalize-NamesSender :
    (p : Participant) (lossy : Bool) (packet : DataPacket)
    → NamesSender p packet (normalize p lossy packet)
unfolding normalize
normalize-NamesSender p lossy packet = ground arith

-- Nobody learns of a hidden sender from its packets. The others can name anybody as the sender: an
-- identity or sid that the packet brings is passed on as it is.
pub handle_incoming_data-NamesSender :
    (p : Participant) (lossy : Bool) (packet : DataPacket) (r : Room)
    → All
        (λ (m : String × DataPacket). NamesSender p packet m.1)
        (handle_incoming_data p lossy (some packet) (some r))
unfolding handle_incoming_data
handle_incoming_data-NamesSender p lossy packet r =
    let out : DataPacket = normalize p lossy packet in
    if_cases (All (λ (m : String × DataPacket). NamesSender p packet m.1))
      (not p.permission.can_publish_data) [] _ (λ _. tt)
      (λ _.
        All-sent (NamesSender p packet) out (select (is_target p out) (everyone r))
          (normalize-NamesSender p lossy packet))
