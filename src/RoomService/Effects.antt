-- ===== src/RoomService/Effects.antt =====
-- crates/lk-server/src/services.rs: what the calls that change a room come to, with their tasks.
use livekit_rs_voice.Base.{
  ℕ, ◌+◌, ◌≡◌, refl, ◌∙◌, ap, Bool, true, false, [], ◌∷◌, ◌++◌, none, some, String, eq_iff, arith,
  if◌then◌else◌, get, length-select-append,
}
use livekit_rs_voice.Track.{PublishedTrack, set_muted}
use livekit_rs_voice.Proto.{RoomInfo}
use livekit_rs_voice.Channels.{Mpsc}
use livekit_rs_voice.Events.{room_finished}
use livekit_rs_voice.Participant.{Participant, Heap, get_track}
use livekit_rs_voice.Room.{Room}
use livekit_rs_voice.Room.Close.{close, when}
use livekit_rs_voice.Room.Closing.{occurrences, is_finished, close_lem}
use livekit_rs_voice.Server.{Running, get_room, close_room, close_kept}
use livekit_rs_voice.Server.Timeouts.{IsKept, get-close_kept}
use livekit_rs_voice.Session.Requests.{write_track}
use livekit_rs_voice.Session.Requesting.{set_track_muted_same, set_track_muted_lem, set_muted-muted}
use livekit_rs_voice.RoomService.{Service, Answer, served, refused, room_of}
use livekit_rs_voice.RoomService.Rooms.{run_delete, room_deleted}
use livekit_rs_voice.RoomService.Participants.{mute_found, run_mute}

-- The state after a call.
abbrev pub state_after : {mpsc : Mpsc} → Answer mpsc → Service mpsc → Service mpsc
state_after (served s' reply tasks) s = s'
state_after (refused e) s = s

module _ (mpsc : Mpsc) where
  write_track-same :
      (t : ℕ) (track : PublishedTrack) (heap : Heap) → write_track t track heap t ≡ track
  write_track-same t track heap = ground arith

  -- MutePublishedTrack, with the task that it spawns, mutes the track, or unmutes it, and tells nobody:
  -- not the client that publishes it, nor the others. The track was written before the task looks for a
  -- change.
  pub mute_found-run_mute :
      (now later : ℕ) (room : String) (p : Participant) (track_sid : String) (t : ℕ) (muted : Bool)
      (s : Service mpsc)
      → get_track track_sid p ≡ some t
      → let s₁ = state_after (mute_found mpsc now room p track_sid t muted s) s in
        let s₂ = run_mute mpsc later room p track_sid muted s₁ in
        (s₂.running ≡ s.running) × ((s₂.heap t).muted ≡ muted)
  unfolding mute_found run_mute
  mute_found-run_mute now later room p track_sid t muted s found =
      let heap' : Heap = write_track t (set_muted now muted (s.heap t)).0 s.heap in
      let is_muted : (heap' t).muted ≡ muted =
        ap (λ x. x.muted) (write_track-same t (set_muted now muted (s.heap t)).0 s.heap)
        ∙ set_muted-muted now muted (s.heap t) in
      (
        ap (λ c. record (s.running) { channels = c })
            (set_track_muted_same mpsc later heap' p s.running.channels track_sid muted true
              (room_of mpsc room s) t found is_muted),
        (set_track_muted_lem mpsc later later heap' p s.running.channels track_sid muted true
            (room_of mpsc room s) t found).0,
      )

  close_room_found :
      (heap : Heap) (reason : ℕ) (name : String) (r : Room) (s : Running mpsc)
      → get name s.manager.rooms ≡ some r
      → (close_room mpsc heap reason name s).0 ≡ close_kept mpsc heap reason name r s
  unfolding close_room
  close_room_found heap reason name r s h = rw (h, close_room) refl

  finished-close_kept :
      (heap : Heap) (reason : ℕ) (name : String) (r : Room) (s : Running mpsc)
      → r.closed ≡ false
      → occurrences is_finished (close_kept mpsc heap reason name r s).events
        ≡ occurrences is_finished s.events + (if r.has_context then 1 else 0)
  unfolding close_kept
  finished-close_kept heap reason name r s open_still =
      let done = (close mpsc heap reason r s.channels).1 in
      length-select-append is_finished s.events done.events
      ∙ ap (λ n. occurrences is_finished s.events + n)
          (close_lem mpsc heap reason r s.channels open_still).3

  -- DeleteRoom, with the task that it spawns, takes the room out of the server, and tells the outside
  -- twice that it is finished: by itself and by the end of the room.
  pub run_delete_lem :
      (name : String) (r : Room) (info : RoomInfo) (s : Service mpsc)
      → room_of mpsc name s ≡ some r
      → IsKept name r
      → let s' = run_delete mpsc name r.has_context info s in
        (room_of mpsc name s' ≡ none)
        × (occurrences is_finished s'.running.events
            ≡ occurrences is_finished s.running.events + (if r.has_context then 2 else 0))
  unfolding run_delete get_room
  run_delete_lem name r info s found kept =
      let told : Running mpsc = record (s.running) {
        events = s.running.events ++ when r.has_context (room_finished info ∷ []);
      } in
      let closed = close_room_found s.heap room_deleted name r told found in
      (
        ap (λ w. get name w.manager.rooms) closed
            ∙ ground (
              arith,
              eq_iff name name,
              get-close_kept mpsc s.heap room_deleted name name r told kept,
            ),
        ap (λ w. occurrences is_finished w.events) closed
            ∙ ground (
              arith,
              finished-close_kept s.heap room_deleted name r told kept.2,
              length-select-append is_finished s.running.events
                  (when r.has_context (room_finished info ∷ [])),
            ),
      )
