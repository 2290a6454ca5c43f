-- ===== src/Room/Closing.antt =====
-- crates/lk-server/src/room.rs: what `Room::close` tells its participants and the outside.
use livekit_rs_voice.Base.{
  if_cases, if_true, ap-if, any_of-keys, All, All-keys, length-keys, ℕ, ◌+◌, ◌≡◌, refl, ap, ◌∙◌,
  inl, inr, Bool, true, false, List, [], ◌∷◌, ◌++◌, some, String, arith, if◌then◌else◌, is_some,
  unwrap_or, length, select, length-select-append, get, keys, Option-cases,
}
use livekit_rs_voice.Participant.{Participant, Heap, participant_to_proto}
use livekit_rs_voice.Proto.{RoomInfo, ParticipantInfo}
use livekit_rs_voice.Channels.{Mpsc}
use livekit_rs_voice.Room.{Room, room_to_proto}
use livekit_rs_voice.Events.{
  Event, terminate_room_jobs, release_room, participant_total_dec, participant_left, room_finished,
  on_close_called,
}
use livekit_rs_voice.Room.Close.{
  close_participant_media, Closing, disconnect, close_found, close_one, close_loop, close_everyone,
  close, when,
}
use livekit_rs_voice.Room.Gone.{GoneAt, one-is_some, loop-GoneAt_reached}

abbrev pub is_left : Event → Bool
is_left (participant_left r p) = true
is_left _ = false

abbrev pub is_finished : Event → Bool
is_finished (room_finished r) = true
is_finished _ = false

abbrev pub is_on_close : Event → Bool
is_on_close on_close_called = true
is_on_close _ = false

-- How often an event of a kind is in a list.
abbrev pub occurrences : (Event → Bool) → List Event → ℕ
occurrences kind events = length (select kind events)

module _ (mpsc : Mpsc) (heap : Heap) (info : RoomInfo) (has_context : Bool) (reason : ℕ) where
  -- A round leaves every channel as it was: the sink is gone when the leave is sent.
  one-channels :
      (sid : String) (c : Closing mpsc)
      → (close_one mpsc heap info has_context reason sid c).channels ≡ c.channels
  unfolding close_one close_found
  one-channels sid c = elim (Option-cases (get sid c.participants)) [
    | inl missing ↦ rw (missing, close_one)
    | inr (p, found) ↦
        rw (found, close_one)
          (if_cases {A = Closing mpsc} (λ d. d.channels ≡ c.channels) has_context _ _ (λ _. refl)
            (λ _. refl))
  ]

  loop-channels :
      (sids : List String) (c : Closing mpsc)
      → (close_loop mpsc heap info has_context reason sids c).channels ≡ c.channels
  unfolding close_loop
  loop-channels [] c = refl
  loop-channels (sid ∷ sids) c = loop-channels sids _ ∙ one-channels sid c

  found-events :
      (sid : String) (p : Participant) (c : Closing mpsc)
      → (i : ParticipantInfo) × ((close_found mpsc heap info has_context reason sid p c).events ≡ (
          if has_context
          then c.events ++ participant_total_dec ∷ participant_left info i ∷ []
          else c.events))
  unfolding close_found
  found-events sid p c = (
    (participant_to_proto heap (
        unwrap_or (get sid (close_participant_media sid (disconnect reason p) c.participants))
          (disconnect reason p))).1,
    ap-if (λ (d : Closing mpsc). d.events) has_context _ _,
  )

  -- A round for somebody who is there tells the outside that one participant left.
  one-events :
      (sid : String) (c : Closing mpsc)
      → is_some (get sid c.participants) ≡ true
      → let d = close_one mpsc heap info has_context reason sid c in
        (occurrences is_left d.events
          ≡ occurrences is_left c.events + (if has_context then 1 else 0))
        × (occurrences is_finished d.events ≡ occurrences is_finished c.events)
        × (occurrences is_on_close d.events ≡ occurrences is_on_close c.events)
  unfolding close_one
  one-events sid c there = elim (Option-cases (get sid c.participants)) [
    | inl missing ↦ cc
    | inr (p, found) ↦
        let (i, e) = found-events sid p c in
        rw (found, close_one)
          (ground (
            arith,
            e,
            length-select-append is_left c.events
                (participant_total_dec ∷ participant_left info i ∷ []),
            length-select-append is_finished c.events
                (participant_total_dec ∷ participant_left info i ∷ []),
            length-select-append is_on_close c.events
                (participant_total_dec ∷ participant_left info i ∷ []),
          ))
  ]

  one-All :
      (sid : String) (sids : List String) (c : Closing mpsc)
      → All (λ k. is_some (get k c.participants) ≡ true) sids
      → All
          (λ k.
            is_some (get k (close_one mpsc heap info has_context reason sid c).participants) ≡ true)
          sids
  one-All sid [] c h = tt
  one-All sid (k ∷ sids) c h =
      (one-is_some mpsc heap info has_context reason k sid c h.0, one-All sid sids c h.1)

  loop-events :
      (sids : List String) (c : Closing mpsc)
      → All (λ k. is_some (get k c.participants) ≡ true) sids
      → let d = close_loop mpsc heap info has_context reason sids c in
        (occurrences is_left d.events
          ≡ occurrences is_left c.events + (if has_context then length sids else 0))
        × (occurrences is_finished d.events ≡ occurrences is_finished c.events)
        × (occurrences is_on_close d.events ≡ occurrences is_on_close c.events)
  unfolding close_loop
  loop-events [] c h = ground arith
  loop-events (sid ∷ sids) c h = ground (
    arith,
    one-events sid c h.0,
    loop-events sids (close_one mpsc heap info has_context reason sid c) (one-All sid sids c h.1),
  )

module _ (mpsc : Mpsc) (heap : Heap) (reason : ℕ) (r : Room) (channels : mpsc.Channels) where
  -- Whoever is in an open room when it closes has, after it, no sink, the last state and the reason
  -- of the close.
  pub close-GoneAt :
      (s : String) (p : Participant)
      → r.closed ≡ false
      → get s r.participants ≡ some p
      → GoneAt reason s (close mpsc heap reason r channels).1.participants
  unfolding close close_everyone
  close-GoneAt s p running there = rw running (
      loop-GoneAt_reached mpsc heap _ r.has_context reason s (keys r.participants) _
        (any_of-keys s r.participants ∙ ap is_some there) (ap is_some there))

  -- No channel has received anything by the close of a room, the leave of its participants included.
  pub close-channels : (close mpsc heap reason r channels).1.channels ≡ channels
  unfolding close close_everyone
  close-channels =
      if_cases {A = Room × Closing mpsc} (λ z. z.1.channels ≡ channels) r.closed _ _ (λ _. refl)
        (λ _. loop-channels mpsc heap _ r.has_context reason (keys r.participants) _)

  -- What the room adds to the events of the loop.
  abbrev last_events : List Event
  last_events =
      when r.has_context (room_finished (room_to_proto (record r { closed = true })) ∷ [])
      ++ when r.on_close (on_close_called ∷ [])

  last_events_lem :
      (occurrences is_left last_events ≡ 0)
      × (occurrences is_finished last_events ≡ (if r.has_context then 1 else 0))
      × (occurrences is_on_close last_events ≡ (if r.on_close then 1 else 0))
  last_events_lem = ground arith

  first_events_lem :
      let first : List Event =
        when r.has_context (terminate_room_jobs r.name ∷ release_room r.name ∷ []) in
      (occurrences is_left first ≡ 0)
      × (occurrences is_finished first ≡ 0)
      × (occurrences is_on_close first ≡ 0)
  first_events_lem = ground arith

  loop_of_close :
      let d = close_everyone mpsc heap reason (record r { closed = true }) channels in
      (occurrences is_left d.events ≡ (if r.has_context then length r.participants else 0))
      × (occurrences is_finished d.events ≡ 0)
      × (occurrences is_on_close d.events ≡ 0)
  unfolding close_everyone
  loop_of_close = ground (
    arith,
    loop-events mpsc heap (room_to_proto (record r { closed = true })) r.has_context reason
        (keys r.participants)
        (record {
          participants = r.participants;
          channels = channels;
          events = when r.has_context (terminate_room_jobs r.name ∷ release_room r.name ∷ []);
        })
        (All-keys r.participants),
    first_events_lem,
    length-keys r.participants,
  )

  -- To close an open room tells the outside once for each participant that it left, once that the
  -- room is finished, if the room has a context, and calls the callback once, if there is one; nobody
  -- is in the room afterwards.
  pub close_lem :
      r.closed ≡ false
      → let (closed_room, done) = close mpsc heap reason r channels in
        (closed_room.closed ≡ true)
        × (closed_room.participants ≡ [])
        × (occurrences is_left done.events ≡ (if r.has_context then length r.participants else 0))
        × (occurrences is_finished done.events ≡ (if r.has_context then 1 else 0))
        × (occurrences is_on_close done.events ≡ (if r.on_close then 1 else 0))
  unfolding close
  close_lem running =
      let d : Closing mpsc =
        close_everyone mpsc heap reason (record r { closed = true }) channels in
      rw running (
        ground (
          arith,
          loop_of_close,
          last_events_lem,
          length-select-append is_left d.events last_events,
          length-select-append is_finished d.events last_events,
          length-select-append is_on_close d.events last_events,
        ))

  pub closed-close : (close mpsc heap reason r channels).0.closed ≡ true
  unfolding close
  closed-close =
      if_cases {A = Room × Closing mpsc} (λ z. z.0.closed ≡ true) r.closed _ _ (λ e. e) (λ _. refl)

close_of_closed :
    (mpsc : Mpsc) (heap : Heap) (reason : ℕ) (r : Room) (channels : mpsc.Channels)
    → r.closed ≡ true
    → close mpsc heap reason r channels
      ≡ (r, record { participants = r.participants; channels = channels; events = [] })
unfolding close
close_of_closed mpsc heap reason r channels e = if_true _ _ e

-- A second close, whatever its reason and the channels then, tells the outside nothing and leaves
-- the room as the first one left it.
pub close-close :
    (mpsc : Mpsc) (heap : Heap) (reason reason' : ℕ) (r : Room) (channels later : mpsc.Channels)
    → let first = (close mpsc heap reason r channels).0 in
      let (second, done) = close mpsc heap reason' first later in
      (second ≡ first) × (done.events ≡ [])
close-close mpsc heap reason reason' r channels later =
    let again =
      close_of_closed mpsc heap reason' (close mpsc heap reason r channels).0 later
        (closed-close mpsc heap reason r channels) in
    (
      ap (λ (z : Room × Closing mpsc). z.0) again,
      ap (λ (z : Room × Closing mpsc). z.1.events) again,
    )
