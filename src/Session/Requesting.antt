-- ===== src/Session/Requesting.antt =====
-- crates/lk-server/src/signal.rs: what the requests of a participant do to its tracks.
use livekit_rs_voice.Base.{
  ℕ, ◌≡◌, inl, inr, refl, Bool, true, false, not, ◌&&◌, ◌||◌, List, [], ◌∷◌, Option, none, some,
  String, eq_iff, eq_refl, arith, ◌==◌, ==_iff, if◌then◌else◌, is_some, get-insert, All,
  Option-cases,
}
use livekit_rs_voice.Track.{PublishedTrack, new_track, set_muted, bool_ne}
use livekit_rs_voice.Proto.{AddTrackRequest}
use livekit_rs_voice.Participant.{
  Participant, Heap, can_publish, add_track, get_track, get_track_by_cid, participant_to_proto,
}
use livekit_rs_voice.Channels.{Mpsc}
use livekit_rs_voice.Room.{Room}
use livekit_rs_voice.Session.Requests.{
  write_track, requested_track, SyncEntry, sync_one, handle_sync_state, handle_add_track,
  set_track_muted, broadcast_self,
}

bool_ne-same : (b : Bool) → bool_ne b b ≡ false
bool_ne-same true = refl
bool_ne-same false = refl

pub set_muted-muted :
    (now : ℕ) (muted : Bool) (t : PublishedTrack) → (set_muted now muted t).0.muted ≡ muted
unfolding set_muted
set_muted-muted now muted t = ground arith

-- The cid leads to a track.
abbrev pub resolves : Participant → String → Bool
resolves p cid = is_some (get_track_by_cid cid p)

-- The client has named no track, or one that is there.
abbrev pub is_known : Participant → SyncEntry → Bool
is_known p e = not (is_some e.track) || resolves p e.cid

sync_one-known :
    (now : ℕ) (e : SyncEntry) (heap : Heap) (p : Participant)
    → is_known p e ≡ true
    → sync_one now e heap p ≡ (heap, p)
unfolding sync_one
sync_one-known now e heap p h = ground (arith, h)

sync_one-knows :
    (now : ℕ) (e : SyncEntry) (heap : Heap) (p : Participant)
    → is_known (sync_one now e heap p).1 e ≡ true
unfolding sync_one add_track get_track_by_cid new_track
sync_one-knows now e heap p = elim (Option-cases e.track) [
  | inl h ↦ ground (arith, h)
  | inr (t, h) ↦ ground (
    arith,
    h,
    get-insert e.cid e.cid e.fresh p.tracks_by_cid,
    eq_refl e.cid,
    ==_iff e.fresh e.fresh,
  )
]

-- A cid that leads to a track goes on leading to it.
sync_one-keeps :
    (now : ℕ) (e : SyncEntry) (cid : String) (t : ℕ) (heap : Heap) (p : Participant)
    → get_track_by_cid cid p ≡ some t
    → get_track_by_cid cid (sync_one now e heap p).1 ≡ some t
unfolding sync_one add_track get_track_by_cid new_track
sync_one-keeps now e cid t heap p h = elim (Option-cases e.track) [
  | inl none_there ↦ ground (arith, h, none_there)
  | inr (s, there) ↦ ground (
    arith,
    h,
    there,
    get-insert e.cid cid e.fresh p.tracks_by_cid,
    eq_iff e.cid cid,
    ==_iff e.fresh e.fresh,
  )
]

sync_one-keeps_known :
    (now : ℕ) (e e' : SyncEntry) (heap : Heap) (p : Participant)
    → is_known p e' ≡ true
    → is_known (sync_one now e heap p).1 e' ≡ true
sync_one-keeps_known now e e' heap p h = elim (Option-cases (get_track_by_cid e'.cid p)) [
  | inl missing ↦ ground (arith, h, missing)
  | inr (t, there) ↦ ground (arith, sync_one-keeps now e e'.cid t heap p there)
]

handle_sync_state-keeps_known :
    (now : ℕ) (es : List SyncEntry) (e' : SyncEntry) (heap : Heap) (p : Participant)
    → is_known p e' ≡ true
    → is_known (handle_sync_state now es heap p).1 e' ≡ true
unfolding handle_sync_state
handle_sync_state-keeps_known now [] e' heap p h = h
handle_sync_state-keeps_known now (e ∷ es) e' heap p h =
    handle_sync_state-keeps_known now es e' _ _ (sync_one-keeps_known now e e' heap p h)

handle_sync_state-knows :
    (now : ℕ) (es : List SyncEntry) (heap : Heap) (p : Participant)
    → All (λ e. is_known (handle_sync_state now es heap p).1 e ≡ true) es
unfolding handle_sync_state
handle_sync_state-knows now [] heap p = tt
handle_sync_state-knows now (e ∷ es) heap p = (
  handle_sync_state-keeps_known now es e _ _ (sync_one-knows now e heap p),
  handle_sync_state-knows now es _ _,
)

handle_sync_state-known :
    (now : ℕ) (es : List SyncEntry) (heap : Heap) (p : Participant)
    → All (λ e. is_known p e ≡ true) es
    → handle_sync_state now es heap p ≡ (heap, p)
unfolding handle_sync_state
handle_sync_state-known now [] heap p h = refl
handle_sync_state-known now (e ∷ es) heap p (h, hs) =
    ground (arith, sync_one-known now e heap p h, handle_sync_state-known now es heap p hs)

handle_sync_state-keeps :
    (now : ℕ) (es : List SyncEntry) (cid : String) (t : ℕ) (heap : Heap) (p : Participant)
    → get_track_by_cid cid p ≡ some t
    → get_track_by_cid cid (handle_sync_state now es heap p).1 ≡ some t
unfolding handle_sync_state
handle_sync_state-keeps now [] cid t heap p h = h
handle_sync_state-keeps now (e ∷ es) cid t heap p h =
    handle_sync_state-keeps now es cid t _ _ (sync_one-keeps now e cid t heap p h)

-- After a client has told its state, each track that it names is there under its cid, and the same
-- state told again, at any time, changes nothing.
pub handle_sync_state_lem :
    (now later : ℕ) (es : List SyncEntry) (heap : Heap) (p : Participant)
    → let (heap', p') = handle_sync_state now es heap p in
      All (λ e. is_known p' e ≡ true) es × (handle_sync_state later es heap' p' ≡ (heap', p'))
handle_sync_state_lem now later es heap p = (
  handle_sync_state-knows now es heap p,
  handle_sync_state-known later es _ _ (handle_sync_state-knows now es heap p),
)

module _ (mpsc : Mpsc) (now : ℕ) (heap : Heap) (p : Participant) (channels : mpsc.Channels) where
  -- A track is made exactly when the participant may publish and asks for an audio track: it is then
  -- there under its cid, muted if that was asked. Else the tracks are as before.
  pub handle_add_track_lem :
      (fresh : ℕ) (sid : String) (req : AddTrackRequest)
      → let handled = handle_add_track mpsc now fresh sid req heap p channels in
        let granted = can_publish p && (req.type == 0) in
        (get_track_by_cid req.cid handled.participant
          ≡ (if granted then some fresh else get_track_by_cid req.cid p))
        × (get_track sid handled.participant ≡ (if granted then some fresh else get_track sid p))
        × (handled.heap
            ≡ (if granted then write_track fresh (requested_track sid now req) heap else heap))
        × ((requested_track sid now req).muted ≡ req.muted)
  unfolding handle_add_track add_track get_track_by_cid get_track requested_track new_track
      set_muted
  handle_add_track_lem fresh sid req = ground (
    arith,
    ==_iff fresh fresh,
    get-insert req.cid req.cid fresh p.tracks_by_cid,
    get-insert sid sid fresh p.tracks,
    eq_refl req.cid,
    eq_refl sid,
  )

set_track_muted_form :
    (mpsc : Mpsc) (now : ℕ) (heap : Heap) (p : Participant) (channels : mpsc.Channels)
    (sid : String) (muted from_server : Bool) (room : Option Room) (t : ℕ)
    → get_track sid p ≡ some t
    → let handled = set_track_muted mpsc now sid muted from_server heap p room channels in
      (handled.heap ≡ write_track t (set_muted now muted (heap t)).0 heap)
      × (handled.participant.tracks ≡ p.tracks)
unfolding set_track_muted broadcast_self participant_to_proto
set_track_muted_form mpsc now heap p channels sid muted from_server none t found =
    ground (arith, found)
set_track_muted_form mpsc now heap p channels sid muted from_server (some r) t found =
    ground (arith, found)

-- Nobody hears of a mute that changes nothing.
pub set_track_muted_same :
    (mpsc : Mpsc) (now : ℕ) (heap : Heap) (p : Participant) (channels : mpsc.Channels)
    (sid : String) (muted from_server : Bool) (room : Option Room) (t : ℕ)
    → get_track sid p ≡ some t
    → (heap t).muted ≡ muted
    → (set_track_muted mpsc now sid muted from_server heap p room channels).channels ≡ channels
unfolding set_track_muted set_muted
set_track_muted_same mpsc now heap p channels sid muted from_server room t found same =
    ground (arith, found, same, bool_ne-same muted)

-- A track that is muted, or unmuted, is so for all who hold it, and no other track is touched. To ask
-- for the same again sends nothing to anybody.
pub set_track_muted_lem :
    (mpsc : Mpsc) (now later : ℕ) (heap : Heap) (p : Participant) (channels : mpsc.Channels)
    (sid : String) (muted from_server : Bool) (room : Option Room) (t : ℕ)
    → get_track sid p ≡ some t
    → let first = set_track_muted mpsc now sid muted from_server heap p room channels in
      ((first.heap t).muted ≡ muted)
      × (first.heap ≡ write_track t (first.heap t) heap)
      × ((set_track_muted mpsc later sid muted from_server first.heap first.participant room
            first.channels).channels
          ≡ first.channels)
unfolding get_track
set_track_muted_lem mpsc now later heap p channels sid muted from_server room t found =
    let (written, kept) =
      set_track_muted_form mpsc now heap p channels sid muted from_server room t found in
    let first = set_track_muted mpsc now sid muted from_server heap p room channels in
    let is_muted : (first.heap t).muted ≡ muted =
      ground (arith, written, ==_iff t t, set_muted-muted now muted (heap t)) in
    (
      is_muted,
      ground (arith, written, ==_iff t t),
      set_track_muted_same mpsc later first.heap first.participant first.channels sid muted
          from_server room t (ground (arith, kept, found)) is_muted,
    )
