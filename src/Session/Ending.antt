-- ===== src/Session/Ending.antt =====
-- crates/lk-server/src/signal.rs: `end_participant` takes a participant out of its room, once.
use livekit_rs_voice.Base.{
  ℕ, ◌≡◌, refl, sym, subst, inl, inr, true, false, none, some, String, str_eq, eq_refl, arith,
  Distinct, if◌then◌else◌, is_some, any_of, values, get, remove, map_option, get-remove,
  get-map_values, any_of-map_values, map_values-Distinct, remove-Distinct, any_of-values-remove,
  Option-cases,
}
use livekit_rs_voice.Participant.{
  Participant, Heap, participant_to_proto, set_state, clear_signal_sink,
}
use livekit_rs_voice.Channels.{Mpsc}
use livekit_rs_voice.Room.{
  Room, counts, everyone, remove_participant, on_participant_left, has_non_dependent,
}
use livekit_rs_voice.Room.Close.{release_from}
use livekit_rs_voice.Room.Closing.{is_left, occurrences}
use livekit_rs_voice.Room.Membership.{IsConsistent}
use livekit_rs_voice.Room.Lifetime.{IsTimed}
use livekit_rs_voice.Session.{After, unchanged, end_found, end_participant}

counts-release_from : (sid : String) (p : Participant) → counts (release_from sid p) ≡ counts p
unfolding release_from
counts-release_from sid p = refl

-- Nobody to end, nothing to do.
pub end_participant_missing :
    (mpsc : Mpsc) (heap : Heap) (now reason : ℕ) (sid : String) (r : Room)
    (channels : mpsc.Channels)
    → get sid r.participants ≡ none
    → end_participant mpsc heap now reason sid r channels ≡ unchanged mpsc r channels
unfolding end_participant
end_participant_missing mpsc heap now reason sid r channels h = rw (h, end_participant) refl

module _ (mpsc : Mpsc) (heap : Heap) (now reason : ℕ) (sid : String) (r : Room)
    (channels : mpsc.Channels) where
  -- Who is in the room after the end of the participant `p`.
  get-end_found :
      (s : String) (p : Participant)
      → get s (end_found mpsc heap now reason sid p r channels).room.participants
        ≡ (if str_eq sid s then none else map_option (release_from p.sid) (get s r.participants))
  unfolding end_found remove_participant on_participant_left participant_to_proto set_state
      clear_signal_sink
  get-end_found s p = ground (
    arith,
    get-map_values s (release_from p.sid) (remove sid r.participants),
    get-remove sid s r.participants,
  )

  pub end_participant_found :
      (p : Participant)
      → get sid r.participants ≡ some p
      → is_some p.room ≡ true
      → end_participant mpsc heap now reason sid r channels
        ≡ end_found mpsc heap now reason sid p r channels
  unfolding end_participant
  end_participant_found p found there = ground (arith, found, there)

  -- The participant is out of the room after `end_participant`, and of the others each is still
  -- there, off whose forwarders it is taken. Exactly one webhook says that it left, if the room has a
  -- context.
  pub end_participant_lem :
      (p : Participant) (s : String)
      → IsConsistent r
      → get sid r.participants ≡ some p
      → let after = end_participant mpsc heap now reason sid r channels in
        (get s after.room.participants
          ≡ (if str_eq sid s then none else map_option (release_from sid) (get s r.participants)))
        × (occurrences is_left after.events ≡ (if r.has_context then 1 else 0))
  unfolding end_found
  end_participant_lem p s ok found =
      let there : is_some p.room ≡ true = ground (arith, ok.attached sid p found) in
      let own : p.sid ≡ sid = ok.keyed sid p found in
      ground (arith, end_participant_found p found there, get-end_found s p, own)

  -- A second end finds nobody: the room, the channels and the events stay as they are, whatever the
  -- reason and the time.
  pub end_participant-end_participant :
      (later reason' : ℕ)
      → IsConsistent r
      → let first = end_participant mpsc heap now reason sid r channels in
        end_participant mpsc heap later reason' sid first.room first.channels
        ≡ unchanged mpsc first.room first.channels
  end_participant-end_participant later reason' ok =
      let StaysAs : After mpsc → Type 0 = λ a.
        end_participant mpsc heap later reason' sid a.room a.channels
        ≡ unchanged mpsc a.room a.channels in
      elim (Option-cases (get sid r.participants)) [
        | inl missing ↦
            subst StaysAs
              (sym (end_participant_missing mpsc heap now reason sid r channels missing))
              (end_participant_missing mpsc heap later reason' sid r channels missing)
        | inr (p, found) ↦
            let there : is_some p.room ≡ true = ground (arith, ok.attached sid p found) in
            subst StaysAs (sym (end_participant_found p found there)) (
              end_participant_missing mpsc heap later reason' sid _ _
                (ground (arith, get-end_found sid p, eq_refl sid)))
      ]

  has_non_dependent-end_found :
      (p : Participant)
      → any_of counts (everyone (end_found mpsc heap now reason sid p r channels).room)
        ≡ any_of counts (values (remove sid r.participants))
  unfolding end_found remove_participant on_participant_left participant_to_proto set_state
      clear_signal_sink
  has_non_dependent-end_found p = ground (
    arith,
    any_of-map_values counts (release_from p.sid) (remove sid r.participants)
        (counts-release_from p.sid),
  )

  end_found-IsTimed :
      (p : Participant)
      → get sid r.participants ≡ some p
      → IsTimed r
      → IsTimed (end_found mpsc heap now reason sid p r channels).room
  unfolding end_found remove_participant on_participant_left participant_to_proto set_state
      clear_signal_sink has_non_dependent
  end_found-IsTimed p found timed = ground (
    arith,
    any_of-map_values counts (release_from p.sid) (remove sid r.participants)
        (counts-release_from p.sid),
    any_of-values-remove counts sid r.participants,
  )

  -- The end of a participant keeps the timers of the room right: if it leaves nobody who counts, the
  -- empty timer runs, and if it leaves somebody who counts, none does.
  pub end_participant-IsTimed :
      IsConsistent r
      → IsTimed r
      → IsTimed (end_participant mpsc heap now reason sid r channels).room
  end_participant-IsTimed ok timed = elim (Option-cases (get sid r.participants)) [
    | inl missing ↦
        subst (λ a. IsTimed a.room)
          (sym (end_participant_missing mpsc heap now reason sid r channels missing)) timed
    | inr (p, found) ↦
        subst (λ a. IsTimed a.room)
          (sym (end_participant_found p found (ground (arith, ok.attached sid p found))))
          (end_found-IsTimed p found timed)
  ]

  Distinct-end_found :
      (p : Participant)
      → Distinct r.participants
      → Distinct (end_found mpsc heap now reason sid p r channels).room.participants
  unfolding end_found remove_participant on_participant_left participant_to_proto set_state
      clear_signal_sink
  Distinct-end_found p d = ground (
    arith,
    map_values-Distinct (release_from p.sid) (remove sid r.participants)
        (remove-Distinct sid r.participants d),
  )

  name-end_found :
      (p : Participant) → (end_found mpsc heap now reason sid p r channels).room.name ≡ r.name
  unfolding end_found remove_participant on_participant_left
  name-end_found p = ground arith

  -- Who is in the room after the end was in it before, the forwarders apart.
  end_found_from :
      (s : String) (p q : Participant)
      → get s (end_found mpsc heap now reason sid p r channels).room.participants ≡ some q
      → (q' : Participant) × (get s r.participants ≡ some q')
        × (q ≡ release_from p.sid q')
        × (str_eq sid s ≡ false)
  end_found_from s p q h = elim (Option-cases (get s r.participants)) [
    | inl missing ↦ absurd (ground (arith, h, get-end_found s p))
    | inr (q', found) ↦
        (q', found, ground (arith, h, get-end_found s p), ground (arith, h, get-end_found s p))
  ]

  end_found-IsConsistent :
      (p : Participant)
      → IsConsistent r
      → IsConsistent (end_found mpsc heap now reason sid p r channels).room
  unfolding release_from
  end_found-IsConsistent p ok = record {
    distinct = Distinct-end_found p ok.distinct;
    keyed = λ s q h.
        let (q', found, same, _) = end_found_from s p q h in
        ground (arith, same, ok.keyed s q' found);
    attached = λ s q h.
        let (q', found, same, _) = end_found_from s p q h in
        ground (arith, same, name-end_found p, ok.attached s q' found);
    unique = λ s s' q q' h h' e.
        let (o, found, same, _) = end_found_from s p q h in
        let (o', found', same', _) = end_found_from s' p q' h' in
        ok.unique s s' o o' found found' (ground (arith, e, same, same'));
  }

  -- The room stays consistent.
  pub end_participant-IsConsistent :
      IsConsistent r → IsConsistent (end_participant mpsc heap now reason sid r channels).room
  end_participant-IsConsistent ok = elim (Option-cases (get sid r.participants)) [
    | inl missing ↦
        subst (λ a. IsConsistent a.room)
          (sym (end_participant_missing mpsc heap now reason sid r channels missing)) ok
    | inr (p, found) ↦
        subst (λ a. IsConsistent a.room)
          (sym (end_participant_found p found (ground (arith, ok.attached sid p found))))
          (end_found-IsConsistent p ok)
  ]
