-- ===== src/Room/Close.antt =====
-- crates/lk-server/src/room.rs, `Room::close`, with `close_participant_media` of media.rs: the end of
-- a room. What it does outside the room is a list of events, in order.
use livekit_rs_voice.Base.{
  ℕ, Bool, true, false, List, [], ◌∷◌, ◌++◌, none, some, String, if◌then◌else◌, Map, get, insert,
  remove, is_some, unwrap_or, keys, map_values,
}
use livekit_rs_voice.Media.{Forwarder, ParticipantMedia}
use livekit_rs_voice.Participant.{
  Participant, Heap, disconnected, set_state, clear_signal_sink, participant_to_proto,
}
use livekit_rs_voice.Proto.{RoomInfo}
use livekit_rs_voice.Channels.{Mpsc, SignalResponse, leave}
use livekit_rs_voice.Events.{
  Event, terminate_room_jobs, release_room, participant_total_dec, participant_left, room_finished,
  on_close_called,
}
use livekit_rs_voice.Room.{Room, room_to_proto}

unfoldable pub remove_subscriber : String → Forwarder → Forwarder
remove_subscriber sid f = record { subscribers = remove sid f.subscribers }

abbrev pub set_media : ParticipantMedia → Participant → Participant
set_media media p = record p { media = media }

unfoldable pub drop_media : ParticipantMedia → ParticipantMedia
drop_media m = record m {
  publisher = none;
  subscriber = none;
  forwarders = [];
  subscriber_tracks = [];
  subscriber_senders = [];
}

unfoldable pub release_from : String → Participant → Participant
unfolding remove_subscriber
release_from sid p =
    set_media
      (record (p.media) { forwarders = map_values (remove_subscriber sid) p.media.forwarders }) p

-- `close_participant_media` on the participant `p`, filed under `sid` in its room: its own media goes,
-- and it is taken off the forwarders of everybody there.
unfoldable pub close_participant_media : String → Participant → Map Participant → Map Participant
unfolding drop_media release_from
close_participant_media sid p m =
    let own = insert sid (set_media (drop_media p.media) p) m in
    if is_some p.room then map_values (release_from p.sid) own else own

abbrev pub disconnect : ℕ → Participant → Participant
disconnect reason p =
    clear_signal_sink (record (set_state disconnected p).0 { disconnected_reason = reason })

abbrev pub when : Bool → List Event → List Event
when b events = if b then events else []

module _ (mpsc : Mpsc) where
  open mpsc use {Channels, send}

  -- Participant::send
  unfoldable pub send_to : SignalResponse → Participant → Channels → Channels × Bool
  send_to response p channels = elim p.tx [
    | none ↦ (channels, false)
    | some tx ↦ send tx response channels
  ]

  -- What the loop of `close` carries from one participant to the next.
  pub record Closing : Type 0 where
    pub participants : Map Participant
    pub channels : Channels
    pub events : List Event

  -- One round of the loop, for the participant `p` under `sid`. Webhooks and metrics are reached
  -- through the context of the room, if it still has one.
  unfoldable pub close_found : Heap → RoomInfo → Bool → ℕ → String → Participant → Closing → Closing
  unfolding send_to close_participant_media set_state clear_signal_sink
  close_found heap room_info has_context reason sid p c =
      let p' = disconnect reason p in
      let rest = close_participant_media sid p' c.participants in
      let (channels, delivered) = send_to (leave reason) p' c.channels in
      let (q, info) = participant_to_proto heap (unwrap_or (get sid rest) p') in
      if has_context
      then record {
        participants = insert sid q rest;
        channels = channels;
        events = c.events ++ participant_total_dec ∷ participant_left room_info info ∷ [];
      }
      else record { participants = rest; channels = channels; events = c.events }

  unfoldable pub close_one : Heap → RoomInfo → Bool → ℕ → String → Closing → Closing
  close_one heap room_info has_context reason sid c = elim (get sid c.participants) [
    | none ↦ c
    | some p ↦ close_found heap room_info has_context reason sid p c
  ]

  unfoldable pub close_loop : Heap → RoomInfo → Bool → ℕ → List String → Closing → Closing
  close_loop heap room_info has_context reason [] c = c
  close_loop heap room_info has_context reason (sid ∷ sids) c =
      close_loop heap room_info has_context reason sids
        (close_one heap room_info has_context reason sid c)

  -- The loop of `close`, from the snapshot of the participants that it takes.
  unfoldable pub close_everyone : Heap → ℕ → Room → Channels → Closing
  close_everyone heap reason r channels =
      close_loop heap (room_to_proto r) r.has_context reason (keys r.participants) (record {
        participants = r.participants;
        channels = channels;
        events = when r.has_context (terminate_room_jobs r.name ∷ release_room r.name ∷ []);
      })

  -- The room is left with nobody; `participants` of the result are the objects that its sessions
  -- still hold.
  unfoldable pub close : Heap → ℕ → Room → Channels → Room × Closing
  close heap reason r channels =
      let done = close_everyone heap reason (record r { closed = true }) channels in
      if r.closed
      then (r, record { participants = r.participants; channels = channels; events = [] })
      else (
        record r { closed = true; participants = []; on_close = false },
        record done {
          events =
              done.events
              ++ (when r.has_context
                    (room_finished (room_to_proto (record r { closed = true })) ∷ [])
                  ++ when r.on_close (on_close_called ∷ []));
        },
      )
