-- ===== src/Session/Joining.antt =====
-- crates/lk-server/src/signal.rs, `join_room`: a duplicate identity gives way.
use livekit_rs_voice.Base.{
  ℕ, ◌≡◌, inl, inr, refl, sym, subst, false, none, some, String, str_eq, eq_iff, eq_refl, arith,
  get, get-insert, insert-Distinct, Option-cases, Bool-cases, any_of, any_of-values-find,
  first_of_list-values,
}
use livekit_rs_voice.Participant.{Participant, Heap, set_state}
use livekit_rs_voice.Channels.{Mpsc}
use livekit_rs_voice.Room.{Room, everyone, has_identity, get_participant_by_identity}
use livekit_rs_voice.Room.Close.{release_from}
use livekit_rs_voice.Room.Membership.{IsConsistent, first-any}
use livekit_rs_voice.Session.{
  After, put, close_signal, unchanged, duplicate_identity, end_participant, end_duplicate,
}
use livekit_rs_voice.Session.Ending.{end_participant_lem, end_participant-IsConsistent}

close_signal_same :
    (mpsc : Mpsc) (reason : ℕ) (p : Participant) (channels : mpsc.Channels)
    → let p' = (close_signal mpsc reason p channels).0 in
      (p'.sid ≡ p.sid) × (p'.identity ≡ p.identity) × (p'.room ≡ p.room)
unfolding close_signal set_state
close_signal_same mpsc reason p channels = ground arith

-- To write an object of the room back with its sid, identity and room as they were keeps the room
-- consistent.
put-IsConsistent :
    (p p' : Participant) (r : Room)
    → IsConsistent r
    → get p.sid r.participants ≡ some p
    → p'.sid ≡ p.sid
    → p'.identity ≡ p.identity
    → p'.room ≡ p.room
    → IsConsistent (put p' r)
put-IsConsistent p p' r ok found same named inside = record {
  distinct = insert-Distinct p'.sid p' r.participants ok.distinct;
  keyed = λ s q h.
      ground (arith, h, get-insert p'.sid s p' r.participants, eq_iff p'.sid s, ok.keyed s q);
  attached = λ s q h. ground (
    arith,
    h,
    get-insert p'.sid s p' r.participants,
    eq_iff p'.sid s,
    ok.attached s q,
    ok.attached p.sid p found,
  );
  unique = λ s s' q q' h h' e. ground (
    arith,
    h,
    h',
    e,
    get-insert p'.sid s p' r.participants,
    get-insert p'.sid s' p' r.participants,
    eq_iff p'.sid s,
    eq_iff p'.sid s',
    ok.unique s s' q q',
    ok.unique s p.sid q p,
    ok.unique p.sid s' p q',
  );
}

nobody-has_identity :
    (identity : String) (r : Room)
    → IsConsistent r
    → ((s : String) (q : Participant)
        → get s r.participants ≡ some q
        → str_eq q.identity identity ≡ false)
    → any_of (has_identity identity) (everyone r) ≡ false
nobody-has_identity identity r ok none_has =
    elim (Bool-cases (any_of (has_identity identity) (everyone r))) [
      | inl some_has ↦
          let (s, q, found, passes) =
            any_of-values-find (has_identity identity) r.participants ok.distinct some_has in
          absurd (ground (arith, passes, none_has s q found))
      | inr h ↦ h
    ]

ended-free :
    (mpsc : Mpsc) (heap : Heap) (now : ℕ) (reason : ℕ) (p : Participant) (r : Room)
    (channels : mpsc.Channels)
    → IsConsistent r
    → get p.sid r.participants ≡ some p
    → (s : String) (q : Participant)
    → get s (end_participant mpsc heap now reason p.sid r channels).room.participants ≡ some q
    → str_eq q.identity p.identity ≡ false
unfolding release_from
ended-free mpsc heap now reason p r channels ok found s q h =
    elim (Option-cases (get s r.participants)) [
      | inl missing ↦ absurd (
          ground (arith, h, end_participant_lem mpsc heap now reason p.sid r channels p s ok found))
      | inr (o, there) ↦ ground (
        arith,
        h,
        there,
        end_participant_lem mpsc heap now reason p.sid r channels p s ok found,
        ok.unique s p.sid o p there found,
        eq_iff q.identity p.identity,
        eq_refl s,
      )
    ]

module _ (mpsc : Mpsc) (heap : Heap) (now : ℕ) (channels : mpsc.Channels) where
  end_duplicate-none :
      (identity : String) (r : Room)
      → get_participant_by_identity identity r ≡ none
      → end_duplicate mpsc heap now identity r channels ≡ unchanged mpsc r channels
  unfolding end_duplicate
  end_duplicate-none identity r h = rw (h, end_duplicate) refl

  end_duplicate-some :
      (identity : String) (r : Room) (p : Participant)
      → get_participant_by_identity identity r ≡ some p
      → let (p', channels') = close_signal mpsc duplicate_identity p channels in
        end_duplicate mpsc heap now identity r channels
        ≡ end_participant mpsc heap now duplicate_identity p.sid (put p' r) channels'
  unfolding end_duplicate
  end_duplicate-some identity r p h = rw (h, end_duplicate) refl

  -- The existing participant, found under its own sid.
  found-at_sid :
      (identity : String) (r : Room) (p : Participant)
      → IsConsistent r
      → get_participant_by_identity identity r ≡ some p
      → (p.identity ≡ identity) × (get p.sid r.participants ≡ some p)
  unfolding get_participant_by_identity
  found-at_sid identity r p ok found =
      let (passes, s, at_s) =
        first_of_list-values (has_identity identity) r.participants p ok.distinct found in
      ground (arith, passes, at_s, ok.keyed s p at_s, eq_iff p.identity identity)

  ended-IsFree :
      (identity : String) (p p' : Participant) (r : Room) (channels' : mpsc.Channels)
      → IsConsistent r
      → get_participant_by_identity identity r ≡ some p
      → p'.sid ≡ p.sid
      → p'.identity ≡ p.identity
      → p'.room ≡ p.room
      → let after = end_participant mpsc heap now duplicate_identity p.sid (put p' r) channels' in
        IsConsistent after.room × (get_participant_by_identity identity after.room ≡ none)
  unfolding get_participant_by_identity
  ended-IsFree identity p p' r channels' ok found same named inside =
      let (has_it, at_sid) = found-at_sid identity r p ok found in
      let ok' : IsConsistent (put p' r) = put-IsConsistent p p' r ok at_sid same named inside in
      let there : get p'.sid (put p' r).participants ≡ some p' =
        ground (arith, get-insert p'.sid p'.sid p' r.participants, eq_refl p'.sid) in
      let after : After mpsc =
        end_participant mpsc heap now duplicate_identity p'.sid (put p' r) channels' in
      let consistent : IsConsistent after.room =
        end_participant-IsConsistent mpsc heap now duplicate_identity p'.sid (put p' r) channels'
          ok' in
      let free : any_of (has_identity p'.identity) (everyone after.room) ≡ false =
        nobody-has_identity p'.identity after.room consistent
          (ended-free mpsc heap now duplicate_identity p' (put p' r) channels' ok' there) in
      let IsFree : String → Type 0 = λ sid.
        IsConsistent
          (end_participant mpsc heap now duplicate_identity sid (put p' r) channels').room
        × (get_participant_by_identity identity
              (end_participant mpsc heap now duplicate_identity sid (put p' r) channels').room
            ≡ none) in
      subst IsFree same (
        consistent,
        ground
            (arith, free, named, has_it, first-any (has_identity identity) (everyone after.room)),
      )

  -- After `end_duplicate` the room is consistent and nobody in it has the identity.
  pub end_duplicate_lem :
      (identity : String) (r : Room)
      → IsConsistent r
      → let after = end_duplicate mpsc heap now identity r channels in
        IsConsistent after.room × (get_participant_by_identity identity after.room ≡ none)
  end_duplicate_lem identity r ok =
      let IsFree : After mpsc → Type 0 =
        λ a. IsConsistent a.room × (get_participant_by_identity identity a.room ≡ none) in
      elim (Option-cases (get_participant_by_identity identity r)) [
        | inl missing ↦ subst IsFree (sym (end_duplicate-none identity r missing)) (ok, missing)
        | inr (p, found) ↦
            let (same, named, inside) = close_signal_same mpsc duplicate_identity p channels in
            subst IsFree (sym (end_duplicate-some identity r p found)) (
              ended-IsFree identity p (close_signal mpsc duplicate_identity p channels).0 r _ ok
                found same named inside)
      ]
