-- ===== src/Room/Gone.antt =====
-- crates/lk-server/src/room.rs: the loop of `Room::close` leaves nobody connected.
use livekit_rs_voice.Base.{
  if_cases, any_of, ℕ, ◌≤◌, ◌≡◌, ◌⊎◌, inl, inr, Bool, true, false, List, [], ◌∷◌, none, some,
  String, str_eq, eq_iff, eq_refl, arith, if◌then◌else◌, is_some, unwrap_or, Map, get, insert,
  get-insert, map_option, get-map_values, Option-cases, Bool-cases,
}
use livekit_rs_voice.Participant.{
  Participant, Heap, set_state, state_code, clear_signal_sink, attempt, participant_to_proto,
}
use livekit_rs_voice.Proto.{RoomInfo}
use livekit_rs_voice.Media.{ParticipantMedia}
use livekit_rs_voice.Channels.{Mpsc}
use livekit_rs_voice.Room.Close.{
  set_media, drop_media, release_from, close_participant_media, Closing, disconnect, close_found,
  close_one, close_loop,
}

-- What `close` makes of a participant.
pub record IsGone (reason : ℕ) (p : Participant) : Type 0 where
  pub has_no_sink : p.tx ≡ none
  pub at_end : 3 ≤ p.state_cell
  pub with_reason : p.disconnected_reason ≡ reason

-- The object under a key is gone.
abbrev pub GoneAt : ℕ → String → Map Participant → Type 0
GoneAt reason s m = (p : Participant) × (get s m ≡ some p) × IsGone reason p

disconnect-IsGone : (reason : ℕ) (p : Participant) → IsGone reason (disconnect reason p)
unfolding set_state state_code clear_signal_sink attempt
disconnect-IsGone reason p = ground arith

pub get-close_participant_media :
    (s sid : String) (p : Participant) (m : Map Participant)
    → get s (close_participant_media sid p m)
      ≡ map_option
          (λ q. if is_some p.room then release_from p.sid q else q)
          (if str_eq sid s then some (set_media (drop_media p.media) p) else get s m)
unfolding close_participant_media
get-close_participant_media s sid p m = ground (
  arith,
  get-map_values s (release_from p.sid) (insert sid (set_media (drop_media p.media) p) m),
  get-insert sid s (set_media (drop_media p.media) p) m,
)

-- Nothing that the loop still does to a participant brings it back.
release_from-IsGone :
    (reason : ℕ) (sid : String) (p : Participant)
    → IsGone reason p
    → IsGone reason (release_from sid p)
unfolding release_from
release_from-IsGone reason sid p g = ground arith

set_media-IsGone :
    (reason : ℕ) (media : ParticipantMedia) (p : Participant)
    → IsGone reason p
    → IsGone reason (set_media media p)
set_media-IsGone reason media p g = ground arith

close_media-GoneAt_self :
    (reason : ℕ) (s sid : String) (p : Participant) (m : Map Participant)
    → IsGone reason p
    → str_eq sid s ≡ true
    → GoneAt reason s (close_participant_media sid p m)
close_media-GoneAt_self reason s sid p m gone same =
    let q : Participant = set_media (drop_media p.media) p in
    let gone' : IsGone reason q = set_media-IsGone reason (drop_media p.media) p gone in
    elim (Bool-cases (is_some p.room)) [
      | inl there ↦ (
        release_from p.sid q,
        ground (arith, get-close_participant_media s sid p m),
        release_from-IsGone reason p.sid q gone',
      )
      | inr alone ↦ (q, ground (arith, get-close_participant_media s sid p m), gone')
    ]

close_media-GoneAt_ne :
    (reason : ℕ) (s sid : String) (p : Participant) (m : Map Participant)
    → str_eq sid s ≡ false
    → GoneAt reason s m
    → GoneAt reason s (close_participant_media sid p m)
close_media-GoneAt_ne reason s sid p m other (q, at_s, gone) = elim (Bool-cases (is_some p.room)) [
  | inl there ↦ (
    release_from p.sid q,
    ground (arith, get-close_participant_media s sid p m),
    release_from-IsGone reason p.sid q gone,
  )
  | inr alone ↦ (q, ground (arith, get-close_participant_media s sid p m), gone)
]

-- Closing the media of a participant that is gone leaves gone who was, and that one.
close_media-GoneAt :
    (reason : ℕ) (s sid : String) (p : Participant) (m : Map Participant)
    → IsGone reason p
    → (str_eq sid s ≡ true) ⊎ GoneAt reason s m
    → GoneAt reason s (close_participant_media sid p m)
close_media-GoneAt reason s sid p m gone (inl same) =
    close_media-GoneAt_self reason s sid p m gone same
close_media-GoneAt reason s sid p m gone (inr at_s) = elim (Bool-cases (str_eq sid s)) [
  | inl same ↦ close_media-GoneAt_self reason s sid p m gone same
  | inr other ↦ close_media-GoneAt_ne reason s sid p m other at_s
]

module _ (mpsc : Mpsc) (heap : Heap) (info : RoomInfo) (has_context : Bool) (reason : ℕ) where
  -- The last write of a round stores the version that was drawn for the webhook.
  put-GoneAt :
      (s sid : String) (p q : Participant) (m : Map Participant)
      → get sid m ≡ some q
      → GoneAt reason s m
      → GoneAt reason s (insert sid (participant_to_proto heap (unwrap_or (get sid m) p)).0 m)
  unfolding participant_to_proto
  put-GoneAt s sid p q m at_sid (g, at_s, gone) = elim (Bool-cases (str_eq sid s)) [
    | inl same ↦ (
      (participant_to_proto heap (unwrap_or (get sid m) p)).0,
      ground (arith, get-insert sid s (participant_to_proto heap (unwrap_or (get sid m) p)).0 m),
      ground (arith, eq_iff sid s),
    )
    | inr other ↦ (
      g,
      ground (arith, get-insert sid s (participant_to_proto heap (unwrap_or (get sid m) p)).0 m),
      gone,
    )
  ]

  found-GoneAt :
      (s sid : String) (p : Participant) (c : Closing mpsc)
      → (str_eq sid s ≡ true) ⊎ GoneAt reason s c.participants
      → GoneAt reason s (close_found mpsc heap info has_context reason sid p c).participants
  unfolding close_found
  found-GoneAt s sid p c at_s =
      let rest : Map Participant =
        close_participant_media sid (disconnect reason p) c.participants in
      let gone : GoneAt reason s rest =
        close_media-GoneAt reason s sid (disconnect reason p) c.participants
          (disconnect-IsGone reason p) at_s in
      let own : GoneAt reason sid rest =
        close_media-GoneAt_self reason sid sid (disconnect reason p) c.participants
          (disconnect-IsGone reason p) (eq_refl sid) in
      if_cases {A = Closing mpsc} (λ d. GoneAt reason s d.participants) has_context _ _
        (λ _. put-GoneAt s sid (disconnect reason p) own.0 rest own.1 gone) (λ _. gone)

  one-GoneAt :
      (s sid : String) (c : Closing mpsc)
      → GoneAt reason s c.participants
      → GoneAt reason s (close_one mpsc heap info has_context reason sid c).participants
  unfolding close_one
  one-GoneAt s sid c gone = elim (Option-cases (get sid c.participants)) [
    | inl missing ↦ rw (missing, close_one) gone
    | inr (p, found) ↦ rw (found, close_one) (found-GoneAt s sid p c (inr gone))
  ]

  loop-GoneAt :
      (s : String) (sids : List String) (c : Closing mpsc)
      → GoneAt reason s c.participants
      → GoneAt reason s (close_loop mpsc heap info has_context reason sids c).participants
  unfolding close_loop
  loop-GoneAt s [] c gone = gone
  loop-GoneAt s (sid ∷ sids) c gone = loop-GoneAt s sids _ (one-GoneAt s sid c gone)

  -- Who is in the map before a round is in it after.
  pub one-is_some :
      (s sid : String) (c : Closing mpsc)
      → is_some (get s c.participants) ≡ true
      → is_some (get s (close_one mpsc heap info has_context reason sid c).participants) ≡ true
  unfolding close_one close_found
  one-is_some s sid c there = elim (Option-cases (get sid c.participants)) [
    | inl missing ↦ rw (missing, close_one) there
    | inr (p, found) ↦
        rw (found, close_one)
          (if_cases {A = Closing mpsc} (λ d. is_some (get s d.participants) ≡ true) has_context _ _
            (λ _. ground (
              arith,
              get-close_participant_media s sid (disconnect reason p) c.participants,
              get-insert sid s
                  (participant_to_proto heap (
                    unwrap_or
                      (get sid (close_participant_media sid (disconnect reason p) c.participants))
                      (disconnect reason p))).0
                  (close_participant_media sid (disconnect reason p) c.participants),
            ))
            (λ _.
              ground
                (arith, get-close_participant_media s sid (disconnect reason p) c.participants)))
  ]

  -- Everybody whose sid the loop goes through is gone after it.
  pub loop-GoneAt_reached :
      (s : String) (sids : List String) (c : Closing mpsc)
      → any_of (λ k. str_eq k s) sids ≡ true
      → is_some (get s c.participants) ≡ true
      → GoneAt reason s (close_loop mpsc heap info has_context reason sids c).participants
  unfolding close_loop close_one
  loop-GoneAt_reached s [] c mem there = cc
  loop-GoneAt_reached s (sid ∷ sids) c mem there = elim (Bool-cases (str_eq sid s)) [
    | inl same ↦ elim (Option-cases (get sid c.participants)) [
      | inl missing ↦ absurd (ground (arith, eq_iff sid s))
      | inr (p, found) ↦
          loop-GoneAt s sids _ (rw (found, close_one) (found-GoneAt s sid p c (inl same)))
    ]
    | inr other ↦ loop-GoneAt_reached s sids _ (ground arith) (one-is_some s sid c there)
  ]
