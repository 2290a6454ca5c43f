-- ===== src/Room.antt =====
-- crates/lk-server/src/room.rs: a room and its participants. Each operation reads the clock once, as
-- its argument `now`, and runs to its end before another begins.
pub mod Membership
pub mod Close
pub mod Closing
pub mod Telling
pub mod Gone
pub mod Broadcast
pub mod Dispatch
pub mod Lifetime
use livekit_rs_voice.Base.{
  ℕ, zero, suc, ◌+◌, ◌*◌, ◌/◌, ◌%◌, Bool, true, false, not, ◌&&◌, ◌||◌, List, [], ◌∷◌, ◌++◌, map,
  Option, none, some, String, str_eq, leb, ◌==◌, if◌then◌else◌, is_some, length, select, any_of,
  first_of_list, u32_mod, Map, get, insert, remove, values, ℤ, sub_ℕ, le_signed,
}
use livekit_rs_voice.Core.{TimedVersion, new_version, bump, unix_millis, is_dependent}
use livekit_rs_voice.Participant.{Participant, attach_room}
use livekit_rs_voice.Auth.{RoomAgentDispatch}
use livekit_rs_voice.Proto.{RoomInfo}

pub record Room : Type 0 where
  pub sid : String
  pub name : String
  pub metadata : String
  pub empty_timeout : ℕ
  pub departure_timeout : ℕ
  pub max_participants : ℕ
  pub creation_time_ms : ℕ
  pub version : TimedVersion
  pub active_recording : Bool
  pub agents : List RoomAgentDispatch
  pub launched_agents : List String
  pub closed : Bool
  pub has_context : Bool
  pub participants : Map Participant
  pub on_close : Bool
  pub empty_since : Option ℕ
  pub ever_joined : Bool

-- The three limits of the configuration, in the order empty timeout, departure timeout, capacity.
abbrev pub Limits : Type 0
Limits = record { empty_timeout : ℕ; departure_timeout : ℕ; max_participants : ℕ }

abbrev pub limits_or_default : Option Limits → Limits
limits_or_default none = record {
  empty_timeout = 300;
  departure_timeout = 20;
  max_participants = 0;
}
limits_or_default (some l) = l

-- `sid` is the fresh id that `new_room_sid` draws; the limits are there if the context is.
unfoldable pub new_room : String → ℕ → String → Option Limits → Room
unfolding unix_millis new_version
new_room sid now name config =
    let limits = limits_or_default config in
    record {
      sid = sid;
      name = name;
      metadata = "";
      empty_timeout = limits.empty_timeout;
      departure_timeout = limits.departure_timeout;
      max_participants = limits.max_participants;
      creation_time_ms = unix_millis now;
      version = new_version now;
      active_recording = false;
      agents = [];
      launched_agents = [];
      closed = false;
      has_context = is_some config;
      participants = [];
      on_close = false;
      empty_since = none;
      ever_joined = false;
    }

-- The callback itself is the room manager's; a room knows whether it still has one.
unfoldable pub set_on_close : Room → Room
set_on_close r = record r { on_close = true }

unfoldable pub bump_version : ℕ → Room → Room
bump_version now r = record r { version = bump now r.version }

unfoldable pub update_room_metadata : ℕ → String → Room → Room × Bool
unfolding bump_version
update_room_metadata now metadata r =
    if str_eq r.metadata metadata
    then (r, false)
    else (bump_version now (record r { metadata = metadata }), true)

abbrev pub counts : Participant → Bool
counts p = not (is_dependent p.kind)

-- participants.values()
abbrev pub everyone : Room → List Participant
everyone r = values r.participants

unfoldable pub is_full : Room → Bool
is_full r =
    if r.max_participants == 0
    then false
    else leb r.max_participants (length (select counts (everyone r)))

unfoldable pub get_participant : String → Room → Option Participant
get_participant sid r = get sid r.participants

abbrev pub has_identity : String → Participant → Bool
has_identity identity p = str_eq p.identity identity

unfoldable pub get_participant_by_identity : String → Room → Option Participant
get_participant_by_identity identity r = first_of_list (has_identity identity) (everyone r)

-- The insertion itself, and what a participant that counts does to the timers.
unfoldable pub admit : ℕ → Participant → Room → Room
unfolding bump_version attach_room
admit now p r =
    let inserted = record r { participants = insert p.sid (attach_room r.name p) r.participants } in
    bump_version now
      (if counts p then record inserted { ever_joined = true; empty_since = none } else inserted)

unfoldable pub join : ℕ → Participant → Room → Room × Bool
join now p r =
    if r.closed
    then (r, false)
    else if counts p && is_full r
    then (r, false)
    else if any_of (has_identity p.identity) (everyone r)
    then (r, false)
    else (admit now p r, true)

abbrev pub is_empty {ℓ} : {A : Type ℓ} → List A → Bool
is_empty [] = true
is_empty (x ∷ xs) = false

unfoldable pub remove_participant : ℕ → String → Room → Room × Option Participant
unfolding bump_version unix_millis
remove_participant now sid r =
    let rest = remove sid r.participants in
    elim (get sid r.participants) [
      | none ↦ (record r { participants = rest }, none)
      | some p ↦ (
        bump_version now (record r {
          participants = rest;
          empty_since = if is_empty rest then some (unix_millis now) else r.empty_since;
        }),
        some p,
      )
    ]

unfoldable pub num_participants : Room → ℕ
num_participants r = length r.participants

unfoldable pub num_publishers : Room → ℕ
num_publishers r = length (select (λ p. p.is_publisher) (everyone r))

unfoldable pub room_to_proto : Room → RoomInfo
unfolding num_participants num_publishers
room_to_proto r = record {
  sid = r.sid;
  name = r.name;
  empty_timeout = r.empty_timeout;
  departure_timeout = r.departure_timeout;
  max_participants = r.max_participants;
  creation_time = r.creation_time_ms / 1000;
  creation_time_ms = r.creation_time_ms;
  metadata = r.metadata;
  num_participants = num_participants r % u32_mod;
  num_publishers = num_publishers r % u32_mod;
  active_recording = r.active_recording;
  version = some r.version;
}

unfoldable pub has_non_dependent : Room → Bool
has_non_dependent r = any_of counts (everyone r)

abbrev pub or_now : Option ℕ → ℕ → Option ℕ
or_now none now = some now
or_now (some t) now = some t

unfoldable pub on_participant_left : ℕ → Room → Room
unfolding unix_millis
on_participant_left now r =
    if has_non_dependent r
    then r
    else record r { empty_since = or_now r.empty_since (unix_millis now) }

abbrev pub elapsed_since : ℕ → Option ℕ → Option ℤ
elapsed_since now none = none
elapsed_since now (some t) = some (sub_ℕ now t)

unfoldable pub empty_since_ms : ℕ → Room → Option ℤ
unfolding unix_millis
empty_since_ms now r = elapsed_since (unix_millis now) r.empty_since

unfoldable pub clear_empty_since : Room → Room
clear_empty_since r = record r { empty_since = none }

unfoldable pub timeout : Room → ℕ
timeout r = if r.ever_joined then r.departure_timeout else r.empty_timeout

-- `None` is the early return of a joined room whose empty time is not known.
unfoldable pub elapsed : ℕ → Room → Option ℤ
unfolding empty_since_ms unix_millis
elapsed now r =
    if r.ever_joined
    then empty_since_ms now r
    else some (sub_ℕ (unix_millis now) r.creation_time_ms)

abbrev pub reaches : ℕ → Option ℤ → Bool
reaches limit none = false
reaches limit (some e) = le_signed limit e

unfoldable pub should_close : ℕ → Room → Bool
unfolding timeout elapsed has_non_dependent
should_close now r =
    if r.closed || has_non_dependent r
    then false
    else if timeout r == 0
    then false
    else reaches (timeout r * 1000) (elapsed now r)

unfoldable pub set_empty_timeout : ℕ → Room → Room
set_empty_timeout v r = record r { empty_timeout = v }

unfoldable pub set_departure_timeout : ℕ → Room → Room
set_departure_timeout v r = record r { departure_timeout = v }

unfoldable pub set_max_participants : ℕ → Room → Room
set_max_participants v r = record r { max_participants = v }
