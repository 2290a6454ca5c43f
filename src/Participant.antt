-- ===== src/Participant.antt =====
-- crates/lk-server/src/participant.rs: one participant of a room. Its tracks are shared objects,
-- held by address in two maps; the objects themselves stand in a `Heap`. The outbound channel is
-- held by its number, and the media plane by the state in Media.antt.
pub mod State
pub mod Attributes
pub mod Tracks
pub mod Grants
use livekit_rs_voice.Base.{
  ℕ, zero, suc, ◌+◌, ◌/◌, Bool, true, false, not, ◌||◌, List, [], ◌∷◌, map, Option, none, some,
  String, str_eq, ltb, leb, ◌==◌, if◌then◌else◌, unwrap_or, is_some, Map, get, insert, remove,
  values, ℤ, sub_ℕ,
}
use livekit_rs_voice.Core.{ParticipantKind, kind_to_proto, unix_millis, next_version}
use livekit_rs_voice.Track.{
  PublishedTrack, TrackInfo, track_to_proto, source_from_str, source_from_proto, source_to_proto,
}
use livekit_rs_voice.Auth.{VideoGrant}
use livekit_rs_voice.Media.{ParticipantMedia, no_media}
use livekit_rs_voice.Proto.{Permission, default_permission, Permission-discrete, ParticipantInfo}

pub data ParticipantState : Type 0 where
  joining joined active disconnected : ParticipantState

-- `state as u8`, which is also the number on the wire.
unfoldable pub state_code : ParticipantState → ℕ
state_code joining = 0
state_code joined = 1
state_code active = 2
state_code disconnected = 3

unfoldable pub state_to_proto : ParticipantState → ℕ
state_to_proto joining = 0
state_to_proto joined = 1
state_to_proto active = 2
state_to_proto disconnected = 3

-- The objects behind the `Arc<PublishedTrack>`s.
abbrev pub Heap : Type 0
Heap = ℕ → PublishedTrack

pub record Participant : Type 0 where
  pub sid : String
  pub identity : String
  pub name : String
  pub metadata : String
  pub attributes : Map String
  pub kind : ParticipantKind
  pub joined_at_ms : ℕ
  pub client_protocol : ℕ
  pub is_publisher : Bool
  pub permission : Permission
  pub auto_subscribe : Bool
  pub state_cell : ℕ
  pub version : ℕ
  pub disconnected_reason : ℕ
  pub resume_gen : ℕ
  pub tx : Option ℕ
  pub room : Option String
  pub tracks : Map ℕ
  pub tracks_by_cid : Map ℕ
  pub media : ParticipantMedia

-- `sid` is the fresh id that `new_participant_sid` draws.
unfoldable pub new_participant :
    String → ℕ → String → String → String → ParticipantKind → Participant
unfolding unix_millis state_code
new_participant sid now identity name metadata kind = record {
  sid = sid;
  identity = identity;
  name = name;
  metadata = metadata;
  attributes = [];
  kind = kind;
  joined_at_ms = unix_millis now;
  client_protocol = 0;
  is_publisher = false;
  permission = default_permission;
  auto_subscribe = true;
  state_cell = state_code joining;
  version = 0;
  disconnected_reason = 0;
  resume_gen = 0;
  tx = none;
  room = none;
  tracks = [];
  tracks_by_cid = [];
  media = no_media;
}

-- The room is known by its name.
unfoldable pub attach_room : String → Participant → Participant
attach_room room p = record p { room = some room }

unfoldable pub state : Participant → ParticipantState
state p =
    if p.state_cell == 1
    then joined
    else if p.state_cell == 2
    then active
    else if p.state_cell == 3
    then disconnected
    else joining

-- A thread in `set_state`: still in the loop, with the state it wants and the one it last read, or
-- out of it, with the state it wanted and what it returned.
pub data Setter : Type 0 where
  trying : ℕ → ℕ → Setter
  finished : ℕ → Bool → Setter

-- One round of the loop against the shared cell: the exchange fails when another thread has written.
unfoldable pub attempt : ℕ → Setter → ℕ × Setter
attempt cell (trying new prev) =
    if leb new prev
    then (cell, finished new false)
    else if cell == prev
    then (new, finished new true)
    else (cell, trying new cell)
attempt cell (finished new changed) = (cell, finished new changed)

abbrev pub returned : Setter → Bool
returned (trying new prev) = false
returned (finished new changed) = changed

-- `set_state` while no other thread writes: the first round ends the loop.
unfoldable pub set_state : ParticipantState → Participant → Participant × Bool
unfolding attempt state_code
set_state s p =
    let (cell, setter) = attempt p.state_cell (trying (state_code s) p.state_cell) in
    (record p { state_cell = cell }, returned setter)

unfoldable pub set_signal_sink : ℕ → Participant → Participant × Option ℕ
set_signal_sink tx p = (record p { tx = some tx }, p.tx)

unfoldable pub clear_signal_sink : Participant → Participant
clear_signal_sink p = record p { tx = none }

unfoldable pub is_disconnected : Participant → Bool
unfolding state
is_disconnected p = elim (state p) [ disconnected ↦ true | _ ↦ false ]

unfoldable pub session_age_ms : ℕ → Participant → ℤ
unfolding unix_millis
session_age_ms now p = sub_ℕ (unix_millis now) p.joined_at_ms

unfoldable pub can_subscribe : Participant → Bool
can_subscribe p = p.permission.can_subscribe

unfoldable pub can_publish : Participant → Bool
can_publish p = p.permission.can_publish

unfoldable pub get_attribute : String → Participant → Option String
get_attribute key p = get key p.attributes

-- `map.get(&k) != Some(&v)`
abbrev pub differs : Option String → String → Bool
differs none v = true
differs (some w) v = not (str_eq w v)

-- One entry of the loop of `set_attributes`: an empty value removes its key.
unfoldable pub set_attribute : String → String → Map String → Map String × Bool
set_attribute k v attrs =
    if str_eq v ""
    then (remove k attrs, is_some (get k attrs))
    else (insert k v attrs, differs (get k attrs) v)

unfoldable pub set_attribute_loop : Map String → Map String → Bool → Map String × Bool
unfolding set_attribute
set_attribute_loop [] attrs changed = (attrs, changed)
set_attribute_loop ((k, v) ∷ rest) attrs changed =
    set_attribute_loop rest (set_attribute k v attrs).0 (changed || (set_attribute k v attrs).1)

unfoldable pub set_attributes : Map String → Participant → Participant × Bool
unfolding set_attribute_loop
set_attributes attrs p =
    let (map', changed) = set_attribute_loop attrs p.attributes false in
    (record p { attributes = map' }, changed)

-- A field that is given and not empty replaces the old one; the flag says whether it differs.
abbrev pub replace_text : String → String → String × Bool
replace_text new old =
    if str_eq new "" then (old, false) else if str_eq old new then (old, false) else (new, true)

unfoldable pub update_metadata : String → Option String → Participant → Participant × Bool
update_metadata metadata name p =
    let (m, m_changed) = replace_text metadata p.metadata in
    let (n, n_changed) = replace_text (unwrap_or name "") p.name in
    (record p { metadata = m; name = n }, m_changed || n_changed)

unfoldable pub update_permission : Permission → Participant → Participant × Bool
update_permission permission p = elim (Permission-discrete p.permission permission) [
  | yes _ ↦ (p, false)
  | no _ ↦ (record p { permission = permission }, true)
]

unfoldable pub add_track : Heap → ℕ → Participant → Participant
add_track heap t p = record p {
  tracks = insert (heap t).sid t p.tracks;
  tracks_by_cid = insert (heap t).cid t p.tracks_by_cid;
}

unfoldable pub remove_track : Heap → String → Participant → Participant × Option ℕ
remove_track heap sid p = elim (get sid p.tracks) [
  | none ↦ (record p { tracks = remove sid p.tracks }, none)
  | some t ↦ (
    record p { tracks = remove sid p.tracks; tracks_by_cid = remove (heap t).cid p.tracks_by_cid },
    some t,
  )
]

unfoldable pub get_track : String → Participant → Option ℕ
get_track sid p = get sid p.tracks

unfoldable pub get_track_by_cid : String → Participant → Option ℕ
get_track_by_cid cid p = get cid p.tracks_by_cid

unfoldable pub track_infos : Heap → Participant → List TrackInfo
track_infos heap p = map (λ t. track_to_proto (heap t)) (values p.tracks)

-- Each serialization draws a version from the participant's counter.
unfoldable pub participant_to_proto : Heap → Participant → Participant × ParticipantInfo
unfolding track_infos state_to_proto state
participant_to_proto heap p =
    let (counter, version) = next_version p.version in
    (
      record p { version = counter },
      record {
        sid = p.sid;
        identity = p.identity;
        state = state_to_proto (state p);
        tracks = track_infos heap p;
        metadata = p.metadata;
        joined_at = p.joined_at_ms / 1000;
        joined_at_ms = p.joined_at_ms;
        name = p.name;
        version = version;
        permission = some p.permission;
        is_publisher = p.is_publisher;
        kind = kind_to_proto p.kind;
        attributes = p.attributes;
        disconnect_reason = p.disconnected_reason;
        client_protocol = p.client_protocol;
      },
    )

unfoldable pub permission_from_grant : VideoGrant → Permission
permission_from_grant grant = record {
  can_publish = unwrap_or grant.can_publish true;
  can_subscribe = unwrap_or grant.can_subscribe true;
  can_publish_data = unwrap_or grant.can_publish_data (unwrap_or grant.can_publish true);
  can_publish_sources =
      map (λ s. source_to_proto (source_from_proto (source_from_str s))) grant.can_publish_sources;
  hidden = grant.hidden;
  recorder = grant.recorder;
  can_update_metadata = unwrap_or grant.can_update_own_metadata false;
  agent = grant.agent;
  can_subscribe_metrics = unwrap_or grant.can_subscribe_metrics false;
}
