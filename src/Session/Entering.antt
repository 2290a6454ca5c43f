-- ===== src/Session/Entering.antt =====
-- crates/lk-server/src/signal.rs, `join_room`: who is admitted, and what a refusal leaves behind.
use livekit_rs_voice.Base.{
  ℕ, ◌≡◌, ◌↔◌, ◌⊎◌, refl, true, false, List, none, some, String, eq_refl, arith, if◌then◌else◌, get,
  get-insert,
}
use livekit_rs_voice.Core.{ParticipantKind, is_dependent}
use livekit_rs_voice.Auth.{VerifiedToken, RoomAgentDispatch}
use livekit_rs_voice.Participant.{
  Participant, Heap, attach_room, new_participant, set_attributes, participant_to_proto,
}
use livekit_rs_voice.Channels.{Mpsc}
use livekit_rs_voice.Room.{Room, is_full, join, get_participant_by_identity}
use livekit_rs_voice.Room.Membership.{IsConsistent, join_iff}
use livekit_rs_voice.Session.{
  SessionParams, admitted, refused, full_or_closed, put, register_dispatches, agents_of,
  joining_participant, end_duplicate, announce, enter_room,
}
use livekit_rs_voice.Session.Joining.{end_duplicate_lem}
use livekit_rs_voice.Session.Registering.{register_dispatches-DiffersInAgents}

module _ (mpsc : Mpsc) (heap : Heap) (now : ℕ) (sid : String) (token : VerifiedToken)
    (params : SessionParams) (kind : ParticipantKind) (r : Room) (channels : mpsc.Channels) where
  -- The room that the participant enters: the duplicate is out, the dispatches of the token are in.
  abbrev prepared : Room
  prepared =
      (register_dispatches (agents_of token.room_config)
        (end_duplicate mpsc heap now token.identity r channels).room).0

  abbrev entrant : Participant
  entrant =
      joining_participant sid now token params kind
        (end_duplicate mpsc heap now token.identity r channels).room.name

  entrant_named : (entrant.identity ≡ token.identity) × (entrant.kind ≡ kind) × (entrant.sid ≡ sid)
  unfolding joining_participant attach_room new_participant set_attributes
  entrant_named = (refl, refl, refl)

  entered :
      let (after, result) = enter_room mpsc heap now sid token params kind r channels in
      let (joined, ok) = join now entrant prepared in
      (after.room ≡ (
        if ok
        then put (participant_to_proto heap (attach_room joined.name entrant)).0 joined
        else joined))
      × ((result ≡ refused full_or_closed) ↔ (ok ≡ false))
  unfolding enter_room announce
  entered = ground arith

  -- The room once the duplicate is out.
  abbrev pub cleared : Room
  cleared = (end_duplicate mpsc heap now token.identity r channels).room

  nobody-prepared : IsConsistent r → get_participant_by_identity entrant.identity prepared ≡ none
  unfolding get_participant_by_identity
  nobody-prepared ok = ground (
    arith,
    end_duplicate_lem mpsc heap now channels token.identity r ok,
    register_dispatches-DiffersInAgents (agents_of token.room_config) cleared,
    entrant_named,
  )

  is_full-prepared : is_full prepared ≡ is_full cleared
  unfolding is_full
  is_full-prepared =
      ground (arith, register_dispatches-DiffersInAgents (agents_of token.room_config) cleared)

  -- A join that passes the checks on the token is refused exactly when the room is closed, or full
  -- for somebody who counts, once the duplicate is out: never because its identity is taken.
  pub enter_room_iff :
      IsConsistent r
      → ((enter_room mpsc heap now sid token params kind r channels).1 ≡ refused full_or_closed)
        ↔ ((cleared.closed ≡ true) ⊎ ((is_dependent kind ≡ false) × (is_full cleared ≡ true)))
  enter_room_iff ok = ground (
    arith,
    entered,
    join_iff now entrant prepared,
    nobody-prepared ok,
    is_full-prepared,
    entrant_named,
    register_dispatches-DiffersInAgents (agents_of token.room_config) cleared,
  )

  -- Who is admitted is in the room, under the sid drawn for it and with the identity of its token.
  pub enter_room-admitted :
      (p : Participant) (fresh : List RoomAgentDispatch)
      → (enter_room mpsc heap now sid token params kind r channels).1 ≡ admitted p fresh
      → let after = (enter_room mpsc heap now sid token params kind r channels).0 in
        (get sid after.room.participants ≡ some p) × (p.identity ≡ token.identity) × (p.kind ≡ kind)
  unfolding enter_room announce participant_to_proto attach_room joining_participant new_participant
      set_attributes
  enter_room-admitted p fresh admission =
      let joined : Room = (join now entrant prepared).0 in
      let p' : Participant = (participant_to_proto heap (attach_room joined.name entrant)).0 in
      ground (arith, admission, get-insert sid sid p' joined.participants, eq_refl sid)
