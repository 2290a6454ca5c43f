-- ===== src/Session/Requests.antt =====
-- crates/lk-server/src/signal.rs: what a participant asks for in a running session, as far as it
-- concerns its tracks and itself. The tracks stand on a heap; `fresh` and `sid` are the address and
-- the id of a track that is made.
use livekit_rs_voice.Base.{
  ℕ, Bool, true, false, not, ◌||◌, List, [], ◌∷◌, Option, none, some, String, str_eq, ◌==◌,
  if◌then◌else◌, is_some, Map,
}
use livekit_rs_voice.Track.{PublishedTrack, new_track, set_muted, source_from_proto, track_to_proto}
use livekit_rs_voice.Proto.{AddTrackRequest}
use livekit_rs_voice.Participant.{
  Participant, Heap, can_publish, add_track, get_track, get_track_by_cid, update_metadata,
  set_attributes, participant_to_proto,
}
use livekit_rs_voice.Channels.{Mpsc, mute, track_published, request_response}
use livekit_rs_voice.Room.{Room}
use livekit_rs_voice.Room.Close.{send_to}
use livekit_rs_voice.Room.Broadcast.{broadcast_participant_update}
use livekit_rs_voice.Session.{put}

abbrev pub is_empty_map : Map String → Bool
is_empty_map [] = true
is_empty_map (e ∷ m) = false

abbrev pub write_track : ℕ → PublishedTrack → Heap → Heap
write_track a t heap b = if a == b then t else heap b

-- The numbers of livekit.RequestResponse.Reason.
abbrev pub not_allowed : ℕ
not_allowed = 2

abbrev pub unsupported_type : ℕ
unsupported_type = 5

-- The track that a request makes.
unfoldable pub requested_track : String → ℕ → AddTrackRequest → PublishedTrack
unfolding new_track set_muted
requested_track sid now req =
    let made = new_track sid now req.name req.cid (source_from_proto req.source) req.stream in
    let track = if req.muted then (set_muted now true made).0 else made in
    record track {
      red_enabled = not req.disable_red;
      encryption = req.encryption;
      stereo = req.stereo;
      disable_dtx = req.disable_dtx;
      audio_features = req.audio_features;
      backup_codec_policy = req.backup_codec_policy;
    }

-- A track of `SyncState`, as far as it is read.
pub record SyncTrack : Type 0 where
  pub name : String
  pub source : ℕ
  pub stream : String

-- A published track that the client names, with its cid; the address and the id are for the track
-- that may be made for it.
pub record SyncEntry : Type 0 where
  pub fresh : ℕ
  pub sid : String
  pub cid : String
  pub track : Option SyncTrack

unfoldable pub sync_one : ℕ → SyncEntry → Heap → Participant → Heap × Participant
unfolding get_track_by_cid new_track
sync_one now e heap p = elim e.track [
  | none ↦ (heap, p)
  | some t ↦
      if is_some (get_track_by_cid e.cid p)
      then (heap, p)
      else let heap' =
          write_track e.fresh
            (new_track e.sid now t.name e.cid (source_from_proto t.source) t.stream) heap in
        (heap', add_track heap' e.fresh p)
]

-- The loop of `handle_sync_state`.
unfoldable pub handle_sync_state : ℕ → List SyncEntry → Heap → Participant → Heap × Participant
unfolding sync_one
handle_sync_state now [] heap p = (heap, p)
handle_sync_state now (e ∷ es) heap p =
    let (heap', p') = sync_one now e heap p in handle_sync_state now es heap' p'

module _ (mpsc : Mpsc) where
  open mpsc use {Channels}

  pub record Handled : Type 0 where
    pub heap : Heap
    pub participant : Participant
    pub channels : Channels

  -- The update of a participant to its room, if it is in one.
  unfoldable pub broadcast_self :
      Heap → Participant → Option String → Option Room → Channels → Handled
  broadcast_self heap p except none channels = record {
    heap = heap;
    participant = p;
    channels = channels;
  }
  broadcast_self heap p except (some r) channels =
      let (p', info) = participant_to_proto heap p in
      record {
        heap = heap;
        participant = p';
        channels = broadcast_participant_update mpsc (info ∷ []) except (put p' r) channels;
      }

  unfoldable pub handle_add_track :
      ℕ → ℕ → String → AddTrackRequest → Heap → Participant → Channels → Handled
  unfolding requested_track send_to
  handle_add_track now fresh sid req heap p channels =
      if not (can_publish p)
      then record {
        heap = heap;
        participant = p;
        channels = (send_to mpsc (request_response not_allowed req) p channels).0;
      }
      else if not (req.type == 0)
      then record {
        heap = heap;
        participant = p;
        channels = (send_to mpsc (request_response unsupported_type req) p channels).0;
      }
      else let track = requested_track sid now req in
        record {
          heap = write_track fresh track heap;
          participant = add_track (write_track fresh track heap) fresh p;
          channels = (send_to mpsc (track_published req.cid (track_to_proto track)) p channels).0;
        }

  abbrev pub answer_mute : Bool → String → Bool → Participant → Channels → Channels
  answer_mute from_server sid muted p channels =
      if from_server then (send_to mpsc (mute sid muted) p channels).0 else channels

  unfoldable pub set_track_muted :
      ℕ → String → Bool → Bool → Heap → Participant → Option Room → Channels → Handled
  unfolding broadcast_self
  set_track_muted now sid muted from_server heap p room channels = elim (get_track sid p) [
    | none ↦ record { heap = heap; participant = p; channels = channels }
    | some t ↦
        let (track, changed) = set_muted now muted (heap t) in
        let heap' = write_track t track heap in
        if not changed
        then record { heap = heap'; participant = p; channels = channels }
        else broadcast_self heap' p (some p.sid) room (answer_mute from_server sid muted p channels)
  ]

  unfoldable pub handle_update_metadata :
      String → String → Map String → Heap → Participant → Option Room → Channels → Handled
  unfolding broadcast_self
  handle_update_metadata metadata name attributes heap p room channels =
      if not p.permission.can_update_metadata
      then record { heap = heap; participant = p; channels = channels }
      else let (renamed, changed) =
          update_metadata metadata (if str_eq name "" then none else some name) p in
        if changed || not (is_empty_map attributes)
        then broadcast_self heap (set_attributes attributes renamed).0 none room channels
        else record { heap = heap; participant = renamed; channels = channels }
