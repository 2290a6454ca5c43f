-- ===== src/Session.antt =====
-- crates/lk-server/src/signal.rs: how a participant gets into a room, is resumed and is ended. The room
-- and the channels are passed along; what happens outside them is a list of events. Of the metrics,
-- the count of participants and the length of sessions are kept.
pub mod Ending
pub mod Leaving
pub mod Registering
pub mod Joining
pub mod Entering
pub mod Data
pub mod Requests
pub mod Requesting
pub mod Grace
use livekit_rs_voice.Base.{
  ℕ, ◌+◌, Bool, true, false, not, ◌&&◌, ◌||◌, List, [], ◌∷◌, ◌++◌, Option, none, some, String,
  str_eq, if◌then◌else◌, ◌==◌, Map, get, insert, map_values, is_some,
}
use livekit_rs_voice.Core.{ParticipantKind}
use livekit_rs_voice.Auth.{VerifiedToken, RoomAgentDispatch, RoomConfiguration, token_can_subscribe}
use livekit_rs_voice.Proto.{ParticipantInfo}
use livekit_rs_voice.Channels.{Mpsc, SignalResponse, leave}
use livekit_rs_voice.Events.{
  Event, participant_total_inc, participant_total_dec, session_duration, room_started,
  participant_joined, participant_left,
}
use livekit_rs_voice.Participant.{
  Participant, Heap, new_participant, attach_room, disconnected, set_state, is_disconnected,
  set_attributes, permission_from_grant, participant_to_proto, session_age_ms,
}
use livekit_rs_voice.Room.{
  Room, room_to_proto, join, remove_participant, on_participant_left, get_participant_by_identity,
}
use livekit_rs_voice.Room.Close.{disconnect, drop_media, release_from, set_media, when}
use livekit_rs_voice.Room.Broadcast.{send_update, broadcast_participant_update}
use livekit_rs_voice.Room.Dispatch.{dispatch_key, add_agent_dispatch, mark_dispatch_launched}

-- What a join uses of the parameters of the request.
pub record SessionParams : Type 0 where
  pub reconnect : Bool
  pub participant_sid : String
  pub auto_subscribe : Bool
  pub publish : Bool
  pub metadata : String

pub data JoinError : Type 0 where
  join_denied identity_required room_required subscribe_denied full_or_closed : JoinError

pub data JoinResult : Type 0 where
  admitted : Participant → List RoomAgentDispatch → JoinResult
  refused : JoinError → JoinResult

-- The shared object of a participant of the room is written.
abbrev pub put : Participant → Room → Room
put p r = record r { participants = insert p.sid p r.participants }

-- The dispatches of a token that are new to the room, which marks them launched.
unfoldable pub register_dispatches : List RoomAgentDispatch → Room → Room × List RoomAgentDispatch
register_dispatches [] r = (r, [])
register_dispatches (d ∷ ds) r =
    let (r', added) = add_agent_dispatch d r in
    let (r'', fresh) =
      register_dispatches ds (if added then mark_dispatch_launched (dispatch_key d) r' else r') in
    (r'', if added then d ∷ fresh else fresh)

abbrev pub agents_of : Option RoomConfiguration → List RoomAgentDispatch
agents_of none = []
agents_of (some c) = c.agents

-- The participant that a join makes, before it enters the room.
unfoldable pub joining_participant :
    String → ℕ → VerifiedToken → SessionParams → ParticipantKind → String → Participant
unfolding attach_room
joining_participant sid now token params kind room =
    let fresh =
      attach_room room (new_participant sid now token.identity token.name token.metadata kind) in
    let named =
      (set_attributes token.attributes
        (record fresh { auto_subscribe = params.auto_subscribe })).0 in
    record named {
      permission = permission_from_grant token.video;
      metadata = if str_eq params.metadata "" then named.metadata else params.metadata;
    }

-- The checks on the token, in order.
unfoldable pub check_token : VerifiedToken → SessionParams → Option JoinError
check_token token params =
    if not token.video.room_join
    then some join_denied
    else if str_eq token.identity ""
    then some identity_required
    else if str_eq token.video.room ""
    then some room_required
    else if not params.publish && not (token_can_subscribe token)
    then some subscribe_denied
    else none

-- `resume_room_participant`, in the room of the token if there is one: the participant is found by its
-- identity, must not be disconnected, and must have the sid that the client names, if it names one.
unfoldable pub resume_room_participant :
    VerifiedToken → SessionParams → Room → Room × Option Participant
resume_room_participant token params r = elim (get_participant_by_identity token.identity r) [
  | none ↦ (r, none)
  | some p ↦
      if is_disconnected p
      then (r, none)
      else if not (str_eq params.participant_sid "") && not (str_eq p.sid params.participant_sid)
      then (r, none)
      else (
        put (record p { resume_gen = p.resume_gen + 1 }) r,
        some (record p { resume_gen = p.resume_gen + 1 }),
      )
]

-- The task that the end of a session leaves behind: the generation that it read, which it compares
-- after the grace period. No task is left for a participant that is disconnected.
unfoldable pub grace_task : Participant → Option ℕ
grace_task p = if is_disconnected p then none else some p.resume_gen

-- The numbers of livekit.DisconnectReason.
abbrev pub duplicate_identity : ℕ
duplicate_identity = 2

abbrev pub signal_close : ℕ
signal_close = 9

module _ (mpsc : Mpsc) where
  open mpsc use {Channels}

  unfoldable pub close_signal : ℕ → Participant → Channels → Participant × Channels
  close_signal reason p channels =
      let (channels', sent) = send_update mpsc (leave reason) p channels in
      (
        if is_disconnected p
            then p
            else record (set_state disconnected p).0 { disconnected_reason = reason },
        channels',
      )

  -- The room, the channels and the events after a step of a session.
  pub record After : Type 0 where
    pub room : Room
    pub channels : Channels
    pub events : List Event

  abbrev pub unchanged : Room → Channels → After
  unchanged r channels = record { room = r; channels = channels; events = [] }

  -- `end_participant` for a participant that is still in its room.
  unfoldable pub end_found : Heap → ℕ → ℕ → String → Participant → Room → Channels → After
  unfolding release_from
  end_found heap now reason sid p r channels =
      let (p', info) = participant_to_proto heap (disconnect reason p) in
      let removed = (remove_participant now sid r).0 in
      let released = record removed {
        participants = map_values (release_from p'.sid) removed.participants;
      } in
      record {
        room = on_participant_left now released;
        channels = broadcast_participant_update mpsc (info ∷ []) (some p'.sid) released channels;
        events = when r.has_context (
            participant_total_dec
            ∷ session_duration (session_age_ms now p')
            ∷ participant_left (room_to_proto r) info
            ∷ []);
      }

  -- `end_participant` on the participant with a sid: nothing if it is not in the room any more.
  unfoldable pub end_participant : Heap → ℕ → ℕ → String → Room → Channels → After
  end_participant heap now reason sid r channels = elim (get sid r.participants) [
    | none ↦ unchanged r channels
    | some p ↦
        if is_some p.room then end_found heap now reason sid p r channels else unchanged r channels
  ]

  -- The existing session of a duplicate identity is told to leave, and ended.
  unfoldable pub end_duplicate : Heap → ℕ → String → Room → Channels → After
  end_duplicate heap now identity r channels = elim (get_participant_by_identity identity r) [
    | none ↦ unchanged r channels
    | some p ↦
        let (p', channels') = close_signal duplicate_identity p channels in
        end_participant heap now duplicate_identity p.sid (put p' r) channels'
  ]

  -- After the grace period the participant is ended, unless its generation has moved on.
  unfoldable pub grace_expires : Heap → ℕ → ℕ → String → Room → Channels → After
  grace_expires heap now gen sid r channels = elim (get sid r.participants) [
    | none ↦ unchanged r channels
    | some p ↦
        if p.resume_gen == gen
        then end_participant heap now signal_close sid r channels
        else unchanged r channels
  ]

  -- The end of `join_room`, for a participant that the room has admitted.
  unfoldable pub announce :
      Heap → Bool → Participant → List RoomAgentDispatch → Room → Channels → After × JoinResult
  announce heap first_join p dispatches r channels =
      let (p', info) = participant_to_proto heap (attach_room r.name p) in
      (
        record {
          room = put p' r;
          channels = broadcast_participant_update mpsc (info ∷ []) (some p.sid) (put p' r) channels;
          events = when r.has_context (
              (if first_join then room_started (room_to_proto r) ∷ [] else [])
              ++ participant_total_inc ∷ participant_joined (room_to_proto r) info ∷ []);
        },
        admitted p' dispatches,
      )

  -- `join_room` after the checks, in the room of that name, with a sid drawn for the participant.
  unfoldable pub enter_room :
      Heap
      → ℕ
      → String
      → VerifiedToken
      → SessionParams
      → ParticipantKind
      → Room
      → Channels
      → After × JoinResult
  enter_room heap now sid token params kind r channels =
      let cleared = end_duplicate heap now token.identity r channels in
      let p = joining_participant sid now token params kind cleared.room.name in
      let (registered, fresh) = register_dispatches (agents_of token.room_config) cleared.room in
      let (joined, ok) = join now p registered in
      let (after, result) =
        announce heap (not cleared.room.ever_joined) p fresh joined cleared.channels in
      if ok
      then (record after { events = cleared.events ++ after.events }, result)
      else (record cleared { room = joined }, refused full_or_closed)

  unfoldable pub join_room :
      Heap
      → ℕ
      → String
      → VerifiedToken
      → SessionParams
      → ParticipantKind
      → Room
      → Channels
      → After × JoinResult
  join_room heap now sid token params kind r channels = elim (check_token token params) [
    | some e ↦ (unchanged r channels, refused e)
    | none ↦ enter_room heap now sid token params kind r channels
  ]
