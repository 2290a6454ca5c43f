-- ===== src/Session/Grace.antt =====
-- crates/lk-server/src/signal.rs: a client that comes back to its participant, against the task that
-- ends the participant some time after its last session.
use livekit_rs_voice.Base.{
  ℕ, ◌+◌, ◌≡◌, ◌↔◌, ◌⊎◌, refl, true, false, some, eq_iff, eq_refl, arith, if◌then◌else◌, is_some,
  get, get-insert, ◌==◌,
}
use livekit_rs_voice.Auth.{VerifiedToken}
use livekit_rs_voice.Participant.{Participant, Heap, state, is_disconnected}
use livekit_rs_voice.Channels.{Mpsc}
use livekit_rs_voice.Room.{Room, get_participant_by_identity}
use livekit_rs_voice.Session.{
  SessionParams, unchanged, end_participant, put, resume_room_participant, grace_task,
  grace_expires, signal_close,
}

-- A resume succeeds exactly when somebody with the identity of the token is in the room, is not
-- disconnected, and has the sid that the client names, if it names one. It moves the generation of
-- the participant on, and if it fails the room is as before.
pub resume_room_participant_iff :
    (token : VerifiedToken) (params : SessionParams) (r : Room) (p : Participant)
    → get_participant_by_identity token.identity r ≡ some p
    → let (r', resumed) = resume_room_participant token params r in
      ((is_some resumed ≡ true) ↔ (
        (is_disconnected p ≡ false)
        × ((params.participant_sid ≡ "") ⊎ (p.sid ≡ params.participant_sid))))
      × (r' ≡ (if is_some resumed then put (record p { resume_gen = p.resume_gen + 1 }) r else r))
unfolding resume_room_participant
resume_room_participant_iff token params r p found =
    ground (arith, found, eq_iff params.participant_sid "", eq_iff p.sid params.participant_sid)

module _ (mpsc : Mpsc) (heap : Heap) (now : ℕ) (token : VerifiedToken) (params : SessionParams)
    (r : Room) (p q : Participant) (channels : mpsc.Channels) where
  resumed_form :
      get_participant_by_identity token.identity r ≡ some p
      → (resume_room_participant token params r).1 ≡ some q
      → (is_disconnected p ≡ false)
        × (q ≡ record p { resume_gen = p.resume_gen + 1 })
        × ((resume_room_participant token params r).0 ≡ put q r)
  unfolding resume_room_participant
  resumed_form found resumed = ground (arith, found, resumed)

  grace_expires_at :
      (gen : ℕ) (r' : Room)
      → get q.sid r'.participants ≡ some q
      → grace_expires mpsc heap now gen q.sid r' channels ≡ (
          if q.resume_gen == gen
          then end_participant mpsc heap now signal_close q.sid r' channels
          else unchanged mpsc r' channels)
  unfolding grace_expires
  grace_expires_at gen r' h = rw (h, grace_expires) refl

  -- A task that was left before a client came back does nothing when it expires: its generation is
  -- the one before the resume. A task that the old session leaves after the resume, because it sees
  -- its socket close only then, reads the generation of the new session, and ends the participant
  -- that the client has just resumed.
  pub resume-grace_expires :
      get_participant_by_identity token.identity r ≡ some p
      → (resume_room_participant token params r).1 ≡ some q
      → let r' = (resume_room_participant token params r).0 in
        (grace_task p ≡ some p.resume_gen)
        × (grace_expires mpsc heap now p.resume_gen q.sid r' channels ≡ unchanged mpsc r' channels)
        × (grace_task q ≡ some q.resume_gen)
        × (grace_expires mpsc heap now q.resume_gen q.sid r' channels
            ≡ end_participant mpsc heap now signal_close q.sid r' channels)
  unfolding grace_task is_disconnected state
  resume-grace_expires found resumed =
      let (connected, form, there) = resumed_form found resumed in
      let at_sid : get q.sid (resume_room_participant token params r).0.participants ≡ some q =
        ground (arith, there, get-insert q.sid q.sid q r.participants, eq_refl q.sid) in
      (
        ground (arith, connected),
        ground (
          arith,
          form,
          grace_expires_at p.resume_gen (resume_room_participant token params r).0 at_sid,
        ),
        ground (arith, connected, form),
        ground (
          arith,
          grace_expires_at q.resume_gen (resume_room_participant token params r).0 at_sid,
        ),
      )
