-- ===== src/RoomService/Participants.antt =====
-- crates/lk-server/src/services.rs: the calls that read and change the participants of a room.
use livekit_rs_voice.Base.{
  ℕ, Bool, true, false, not, ◌||◌, List, [], ◌∷◌, ◌++◌, map, select, Option, none, some, String,
  str_eq, if◌then◌else◌, Map,
}
use livekit_rs_voice.Track.{set_muted, track_to_proto}
use livekit_rs_voice.Auth.{VideoGrant}
use livekit_rs_voice.Proto.{ParticipantInfo, Permission}
use livekit_rs_voice.Channels.{Mpsc}
use livekit_rs_voice.Participant.{
  Participant, Heap, get_track, participant_to_proto, update_metadata, update_permission,
  set_attributes,
}
use livekit_rs_voice.Room.{Room, everyone}
use livekit_rs_voice.Room.Broadcast.{broadcast_participant_update}
use livekit_rs_voice.Session.{put, end_participant}
use livekit_rs_voice.Session.Data.{DataPacket, user, holds, is_empty_list}
use livekit_rs_voice.Session.Requests.{write_track, set_track_muted}
use livekit_rs_voice.RoomService.{
  LimitConfig, UpdateParticipantRequest, SendDataRequest, unauthenticated, invalid_argument,
  not_found, ensure_admin, validate_metadata, validate_attributes, participant_reply,
  participants_reply, track_reply, empty_reply, end_task, mute_task, subscriptions_task, data_task,
  Service, Answer, served, refused, put_room, room_of, found_room, with_participant,
}

-- PARTICIPANT_REMOVED of livekit.DisconnectReason.
abbrev pub participant_removed : ℕ
participant_removed = 4

-- room.participants().iter().map(|p| p.to_proto()), with what it writes in the participants.
unfoldable pub protos_of : Heap → Map Participant → Map Participant × List ParticipantInfo
protos_of heap [] = ([], [])
protos_of heap ((sid, p) ∷ m) =
    let (p', info) = participant_to_proto heap p in
    let (m', infos) = protos_of heap m in ((sid, p') ∷ m', info ∷ infos)

-- Room::broadcast_data.
unfoldable pub broadcast_data : DataPacket → List String → Room → List (String × DataPacket)
broadcast_data packet destinations r =
    map (λ q. (q.sid, packet))
      (select (λ q. is_empty_list destinations || holds q.identity destinations) (everyone r))

-- The packet that SendData makes of its request.
unfoldable pub packet_to_send : SendDataRequest → DataPacket
packet_to_send req = record {
  kind = req.kind;
  participant_identity = "";
  participant_sid = "";
  destination_identities = req.destination_identities;
  value = user req.payload [];
}

-- Whether an update changed anything, with the participant after it.
unfoldable pub apply_update : UpdateParticipantRequest → Participant → Participant × Bool
unfolding update_metadata update_permission set_attributes
apply_update req p =
    let (p₁, changed₁) =
      update_metadata req.metadata (if str_eq req.name "" then none else some req.name) p in
    let (p₂, changed₂) = permit req.permission p₁ in
    let (p₃, changed₃) = attribute req.attributes p₂ in (p₃, changed₁ || changed₂ || changed₃)
  where
    permit : Option Permission → Participant → Participant × Bool
    permit none p = (p, false)
    permit (some permission) p = update_permission permission p

    attribute : Map String → Participant → Participant × Bool
    attribute [] p = (p, false)
    attribute (entry ∷ attributes) p = set_attributes (entry ∷ attributes) p

module _ (mpsc : Mpsc) where
  open mpsc use {Channels}

  unfoldable pub list_participants : VideoGrant → String → Service mpsc → Answer mpsc
  unfolding ensure_admin protos_of
  list_participants grant room s =
      if not (ensure_admin grant room)
      then refused unauthenticated
      else found_room mpsc (room_of mpsc room s) (λ r.
        let (participants, infos) = protos_of s.heap r.participants in
        served (put_room mpsc room (record r { participants = participants }) s)
          (participants_reply infos) [])

  unfoldable pub get_participant_call : VideoGrant → String → String → Service mpsc → Answer mpsc
  unfolding ensure_admin
  get_participant_call grant room identity s =
      if not (ensure_admin grant room)
      then refused unauthenticated
      else with_participant mpsc room identity s (λ r p.
        let (p', info) = participant_to_proto s.heap p in
        served (put_room mpsc room (put p' r) s) (participant_reply info) [])

  unfoldable pub remove_participant_call : VideoGrant → String → String → Service mpsc → Answer mpsc
  unfolding ensure_admin
  remove_participant_call grant room identity s =
      if not (ensure_admin grant room)
      then refused unauthenticated
      else with_participant mpsc room identity s
          (λ r p. served s empty_reply (end_task room p.sid ∷ []))

  -- The task of `remove_participant_call`.
  unfoldable pub run_end : ℕ → String → String → Service mpsc → Service mpsc
  run_end now room sid s = elim (room_of mpsc room s) [
    | none ↦ s
    | some r ↦
        let after = end_participant mpsc s.heap now participant_removed sid r s.running.channels in
        let written = put_room mpsc room after.room s in
        record written {
          running = record (written.running) {
            channels = after.channels;
            events = written.running.events ++ after.events;
          };
        }
  ]

  -- MutePublishedTrack for a track that was found, at the address `t`.
  unfoldable pub mute_found :
      ℕ → String → Participant → String → ℕ → Bool → Service mpsc → Answer mpsc
  unfolding set_muted
  mute_found now room p track_sid t muted s =
      let track = (set_muted now muted (s.heap t)).0 in
      served (record s { heap = write_track t track s.heap }) (track_reply (track_to_proto track))
        (mute_task room p.sid track_sid muted ∷ [])

  unfoldable pub mute_published_track :
      VideoGrant → ℕ → String → String → String → Bool → Service mpsc → Answer mpsc
  unfolding ensure_admin mute_found
  mute_published_track grant now room identity track_sid muted s =
      if not (ensure_admin grant room)
      then refused unauthenticated
      else with_participant mpsc room identity s (λ r p. elim (get_track track_sid p) [
        | none ↦ refused (not_found "track not found")
        | some t ↦ mute_found now room p track_sid t muted s
      ])

  -- The task of `mute_published_track`, for the participant that it holds.
  unfoldable pub run_mute : ℕ → String → Participant → String → Bool → Service mpsc → Service mpsc
  unfolding set_track_muted
  run_mute now room p track_sid muted s =
      let h =
        set_track_muted mpsc now track_sid muted true s.heap p (room_of mpsc room s)
          s.running.channels in
      record s { running = record (s.running) { channels = h.channels }; heap = h.heap }

  unfoldable pub update_participant_call :
      VideoGrant → LimitConfig → UpdateParticipantRequest → Service mpsc → Answer mpsc
  unfolding ensure_admin validate_metadata validate_attributes apply_update
  update_participant_call grant config req s =
      if not (ensure_admin grant req.room)
      then refused unauthenticated
      else with_participant mpsc req.room req.identity s (λ r p.
        if not (validate_metadata config req.metadata)
        then refused (invalid_argument "metadata size exceeds limits")
        else if not (validate_attributes config req.attributes)
        then refused (invalid_argument "attribute size exceeds limits")
        else update_found req r p s)
    where
      update_found : UpdateParticipantRequest → Room → Participant → Service mpsc → Answer mpsc
      update_found req r p s =
          let (p₁, changed) = apply_update req p in
          let (p₂, told) = participant_to_proto s.heap p₁ in
          let p₃ = if changed then p₂ else p₁ in
          let channels =
            if changed
            then broadcast_participant_update mpsc (told ∷ []) none (put p₃ r) s.running.channels
            else s.running.channels in
          let (p₄, info) = participant_to_proto s.heap p₃ in
          let written = put_room mpsc req.room (put p₄ r) s in
          served (record written { running = record (written.running) { channels = channels } })
            (participant_reply info) []

  unfoldable pub update_subscriptions_call :
      VideoGrant → String → String → List String → Bool → Service mpsc → Answer mpsc
  unfolding ensure_admin
  update_subscriptions_call grant room identity track_sids subscribe s =
      if not (ensure_admin grant room)
      then refused unauthenticated
      else with_participant mpsc room identity s
          (λ r p. served s empty_reply (subscriptions_task room p.sid track_sids subscribe ∷ []))

  unfoldable pub send_data_call : VideoGrant → SendDataRequest → Service mpsc → Answer mpsc
  unfolding ensure_admin broadcast_data packet_to_send
  send_data_call grant req s =
      if not (ensure_admin grant req.room)
      then refused unauthenticated
      else found_room mpsc (room_of mpsc req.room s)
          (λ r. served s empty_reply (data_task (broadcast_data (packet_to_send req) [] r) ∷ []))
