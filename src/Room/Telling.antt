-- ===== src/Room/Telling.antt =====
-- crates/lk-server/src/room.rs: of whom `Room::close` tells the outside.
use livekit_rs_voice.Base.{
  if_cases, if_true, ap-if, ℕ, ◌≡◌, refl, sym, ap, ap₂, ◌∙◌, inl, inr, Bool, true, false, List, [],
  ◌∷◌, ◌++◌, append-nil, append_assoc, Option, none, some, String, str_eq, eq_iff, eq_refl,
  if◌then◌else◌, is_some, unwrap_or, Map, get, insert, get-insert, keys, Option-cases, Bool-cases,
  map_option,
}
use livekit_rs_voice.Participant.{
  Participant, Heap, participant_to_proto, set_state, clear_signal_sink,
}
use livekit_rs_voice.Proto.{RoomInfo, ParticipantInfo}
use livekit_rs_voice.Channels.{Mpsc}
use livekit_rs_voice.Room.{Room, room_to_proto}
use livekit_rs_voice.Events.{
  Event, terminate_room_jobs, release_room, participant_total_dec, participant_left, room_finished,
  on_close_called,
}
use livekit_rs_voice.Room.Close.{
  close_participant_media, Closing, disconnect, close_found, close_one, close_loop, close_everyone,
  release_from, set_media, drop_media, close, when,
}
use livekit_rs_voice.Room.Gone.{get-close_participant_media}
use livekit_rs_voice.Room.Closing.{is_on_close, occurrences, close_lem}

-- A departure that is told: the sid of the room, and the sid and the identity of who left.
abbrev pub Departure : Type 0
Departure = String × (String × String)

abbrev no_departures : List Departure
no_departures = []

abbrev pub left_in : Event → List Departure
left_in (participant_left r p) = (r.sid, (p.sid, p.identity)) ∷ []
left_in _ = []

-- The departures that are told, in order.
abbrev pub left_of : List Event → List Departure
left_of [] = []
left_of (e ∷ events) = left_in e ++ left_of events

abbrev pub finished_in : Event → List String
finished_in (room_finished r) = r.sid ∷ []
finished_in _ = []

-- The sids of the rooms that are told to be finished.
abbrev pub finished_of : List Event → List String
finished_of [] = []
finished_of (e ∷ events) = finished_in e ++ finished_of events

abbrev pub named : String → Option Participant → List Departure
named room none = []
named room (some p) = (room, (p.sid, p.identity)) ∷ []

-- Who is under the keys.
abbrev pub named_at : String → Map Participant → List String → List Departure
named_at room m [] = []
named_at room m (k ∷ ks) = named room (get k m) ++ named_at room m ks

left_of-append : (xs ys : List Event) → left_of (xs ++ ys) ≡ left_of xs ++ left_of ys
left_of-append [] ys = refl
left_of-append (x ∷ xs) ys =
    ap (λ z. left_in x ++ z) (left_of-append xs ys)
    ∙ sym (append_assoc (left_in x) (left_of xs) (left_of ys))

finished_of-append :
    (xs ys : List Event) → finished_of (xs ++ ys) ≡ finished_of xs ++ finished_of ys
finished_of-append [] ys = refl
finished_of-append (x ∷ xs) ys =
    ap (λ z. finished_in x ++ z) (finished_of-append xs ys)
    ∙ sym (append_assoc (finished_in x) (finished_of xs) (finished_of ys))

named_at-same :
    (room : String) (m m' : Map Participant) (ks : List String)
    → ((k : String) → named room (get k m) ≡ named room (get k m'))
    → named_at room m ks ≡ named_at room m' ks
named_at-same room m m' [] h = refl
named_at-same room m m' (k ∷ ks) h = ap₂ (λ x y. x ++ y) (h k) (named_at-same room m m' ks h)

named-release_from :
    (room sid : String) (o : Option Participant) (b : Bool)
    → named room (map_option (λ q. if b then release_from sid q else q) o) ≡ named room o
unfolding release_from
named-release_from room sid none b = refl
named-release_from room sid (some q) true = refl
named-release_from room sid (some q) false = refl

-- To close the media of a participant changes nobody's name.
named-close_participant_media :
    (room s sid : String) (p : Participant) (m : Map Participant)
    → named room (get s (close_participant_media sid p m))
      ≡ (if str_eq sid s then named room (some p) else named room (get s m))
named-close_participant_media room s sid p m =
    ap (named room) (get-close_participant_media s sid p m)
    ∙ named-release_from room p.sid
        (if str_eq sid s then some (set_media (drop_media p.media) p) else get s m) (is_some p.room)
    ∙ if_named (str_eq sid s)
  where
    if_named :
        (b : Bool)
        → named room (if b then some (set_media (drop_media p.media) p) else get s m)
          ≡ (if b then named room (some p) else named room (get s m))
    if_named true = refl
    if_named false = refl

named-unwrap_or :
    (heap : Heap) (room : String) (o : Option Participant) (p : Participant)
    → named room o ≡ named room (some p)
    → named room (some (unwrap_or o p)) ≡ named room (some p)
named-unwrap_or heap room none p h = refl
named-unwrap_or heap room (some q) p h = h

module _ (mpsc : Mpsc) (heap : Heap) (info : RoomInfo) (has_context : Bool) (reason : ℕ) where
  -- The object whose departure is told in a round.
  abbrev told : String → Participant → Closing mpsc → Participant
  told sid p c =
      unwrap_or (get sid (close_participant_media sid (disconnect reason p) c.participants))
        (disconnect reason p)

  named-disconnect :
      (p : Participant) → named info.sid (some (disconnect reason p)) ≡ named info.sid (some p)
  unfolding set_state clear_signal_sink
  named-disconnect p = refl

  named-told :
      (sid : String) (p : Participant) (c : Closing mpsc)
      → named info.sid (some (told sid p c)) ≡ named info.sid (some p)
  named-told sid p c =
      named-unwrap_or heap info.sid _ (disconnect reason p) (
        named-close_participant_media info.sid sid sid (disconnect reason p) c.participants
        ∙ if_true _ _ (eq_refl sid))
      ∙ named-disconnect p

  if_left :
      (b : Bool) (events : List Event) (i : ParticipantInfo)
      → left_of
          (if b then events ++ participant_total_dec ∷ participant_left info i ∷ [] else events)
        ≡ left_of events ++ (if b then (info.sid, (i.sid, i.identity)) ∷ [] else [])
  if_left true events i =
      left_of-append events (participant_total_dec ∷ participant_left info i ∷ [])
  if_left false events i = sym (append-nil (left_of events))

  -- A round for somebody who is there tells of that one.
  found-left :
      (sid : String) (p : Participant) (c : Closing mpsc)
      → left_of (close_found mpsc heap info has_context reason sid p c).events
        ≡ left_of c.events ++ (if has_context then named info.sid (some p) else [])
  unfolding close_found participant_to_proto
  found-left sid p c =
      ap left_of (ap-if (λ (d : Closing mpsc). d.events) has_context _ _)
      ∙ if_left has_context c.events (participant_to_proto heap (told sid p c)).1
      ∙ ap (λ z. left_of c.events ++ (if has_context then z else [])) (named-told sid p c)

  if_same :
      (s sid : String) (p : Participant) (m : Map Participant)
      → get sid m ≡ some p
      → (if str_eq sid s then named info.sid (some p) else named info.sid (get s m))
        ≡ named info.sid (get s m)
  if_same s sid p m found = elim (Bool-cases (str_eq sid s)) [
    | inl same ↦
        if_true _ _ same
        ∙ ap (named info.sid) (sym found)
        ∙ ap (λ k. named info.sid (get k m)) ((eq_iff sid s).0 same)
    | inr other ↦ rw other refl
  ]

  rest-named :
      (s sid : String) (p : Participant) (c : Closing mpsc)
      → get sid c.participants ≡ some p
      → named info.sid (get s (close_participant_media sid (disconnect reason p) c.participants))
        ≡ named info.sid (get s c.participants)
  rest-named s sid p c found =
      named-close_participant_media info.sid s sid (disconnect reason p) c.participants
      ∙ ap (λ z. if str_eq sid s then z else named info.sid (get s c.participants))
          (named-disconnect p)
      ∙ if_same s sid p c.participants found

  put-named :
      (s sid : String) (p : Participant) (q : Participant) (m : Map Participant)
      → named info.sid (some q) ≡ named info.sid (get sid m)
      → named info.sid (get s (insert sid q m)) ≡ named info.sid (get s m)
  put-named s sid p q m same =
      ap (named info.sid) (get-insert sid s q m) ∙ elim (Bool-cases (str_eq sid s)) [
        | inl e ↦
            ap (named info.sid) (if_true _ _ e)
            ∙ same
            ∙ ap (λ k. named info.sid (get k m)) ((eq_iff sid s).0 e)
        | inr other ↦ rw other refl
      ]

  -- A round changes nobody's name.
  found-named :
      (s sid : String) (p : Participant) (c : Closing mpsc)
      → get sid c.participants ≡ some p
      → named info.sid (get s (close_found mpsc heap info has_context reason sid p c).participants)
        ≡ named info.sid (get s c.participants)
  unfolding close_found participant_to_proto
  found-named s sid p c found =
      let rest : Map Participant =
        close_participant_media sid (disconnect reason p) c.participants in
      if_cases {A = Closing mpsc}
        (λ d. named info.sid (get s d.participants) ≡ named info.sid (get s c.participants))
        has_context _ _
        (λ _.
          put-named s sid p (participant_to_proto heap (told sid p c)).0 rest (
            named-told sid p c
            ∙ ap (named info.sid) (sym found)
            ∙ sym (rest-named sid sid p c found))
          ∙ rest-named s sid p c found)
        (λ _. rest-named s sid p c found)

  if_nil : (b : Bool) → (if b then no_departures else no_departures) ≡ no_departures
  if_nil true = refl
  if_nil false = refl

  one-left :
      (sid : String) (c : Closing mpsc)
      → left_of (close_one mpsc heap info has_context reason sid c).events
        ≡ left_of c.events ++ (if has_context then named info.sid (get sid c.participants) else [])
  unfolding close_one
  one-left sid c = elim (Option-cases (get sid c.participants)) [
    | inl missing ↦
        rw (missing, close_one)
          (sym
            (ap (λ z. left_of c.events ++ z) (if_nil has_context) ∙ append-nil (left_of c.events)))
    | inr (p, found) ↦ rw (found, close_one) (found-left sid p c)
  ]

  one-named :
      (s sid : String) (c : Closing mpsc)
      → named info.sid (get s (close_one mpsc heap info has_context reason sid c).participants)
        ≡ named info.sid (get s c.participants)
  unfolding close_one
  one-named s sid c = elim (Option-cases (get sid c.participants)) [
    | inl missing ↦ rw (missing, close_one) refl
    | inr (p, found) ↦ rw (found, close_one) (found-named s sid p c found)
  ]

  if_append :
      (b : Bool) (xs ys : List Departure)
      → (if b then xs else []) ++ (if b then ys else []) ≡ (if b then xs ++ ys else [])
  if_append true xs ys = refl
  if_append false xs ys = refl

  -- The loop tells of those who were under its keys when it began, in the order of the keys.
  pub loop-left :
      (sids : List String) (c : Closing mpsc)
      → left_of (close_loop mpsc heap info has_context reason sids c).events
        ≡ left_of c.events ++ (if has_context then named_at info.sid c.participants sids else [])
  unfolding close_loop
  loop-left [] c =
      sym (ap (λ z. left_of c.events ++ z) (if_nil has_context) ∙ append-nil (left_of c.events))
  loop-left (sid ∷ sids) c =
      let own : List Departure = named info.sid (get sid c.participants) in
      let others : List Departure = named_at info.sid c.participants sids in
      loop-left sids (close_one mpsc heap info has_context reason sid c)
      ∙ ap₂ (λ x y. x ++ (if has_context then y else [])) (one-left sid c)
          (named_at-same info.sid _ c.participants sids (λ k. one-named k sid c))
      ∙ append_assoc (left_of c.events) (if has_context then own else [])
          (if has_context then others else [])
      ∙ ap (λ z. left_of c.events ++ z) (if_append has_context own others)

  if_unfinished :
      (b : Bool) (events : List Event) (i : ParticipantInfo)
      → finished_of
          (if b then events ++ participant_total_dec ∷ participant_left info i ∷ [] else events)
        ≡ finished_of events
  if_unfinished true events i =
      finished_of-append events (participant_total_dec ∷ participant_left info i ∷ [])
      ∙ append-nil (finished_of events)
  if_unfinished false events i = refl

  one-finished :
      (sid : String) (c : Closing mpsc)
      → finished_of (close_one mpsc heap info has_context reason sid c).events
        ≡ finished_of c.events
  unfolding close_one close_found
  one-finished sid c = elim (Option-cases (get sid c.participants)) [
    | inl missing ↦ rw (missing, close_one) refl
    | inr (p, found) ↦
        rw (found, close_one)
          (ap finished_of (ap-if (λ (d : Closing mpsc). d.events) has_context _ _)
            ∙ if_unfinished has_context c.events (participant_to_proto heap (told sid p c)).1)
  ]

  pub loop-finished :
      (sids : List String) (c : Closing mpsc)
      → finished_of (close_loop mpsc heap info has_context reason sids c).events
        ≡ finished_of c.events
  unfolding close_loop
  loop-finished [] c = refl
  loop-finished (sid ∷ sids) c = loop-finished sids _ ∙ one-finished sid c

module _ (mpsc : Mpsc) (heap : Heap) (reason : ℕ) (r : Room) (channels : mpsc.Channels) where
  left_of-first :
      (b : Bool) → left_of (when b (terminate_room_jobs r.name ∷ release_room r.name ∷ [])) ≡ []
  left_of-first true = refl
  left_of-first false = refl

  finished_of-first :
      (b : Bool) → finished_of (when b (terminate_room_jobs r.name ∷ release_room r.name ∷ [])) ≡ []
  finished_of-first true = refl
  finished_of-first false = refl

  -- What the room adds to the events of the loop.
  abbrev last_events : List Event
  last_events =
      when r.has_context (room_finished (room_to_proto (record r { closed = true })) ∷ [])
      ++ when r.on_close (on_close_called ∷ [])

  last_events_lem :
      (left_of last_events ≡ [])
      × (finished_of last_events ≡ (if r.has_context then r.sid ∷ [] else []))
  unfolding room_to_proto
  last_events_lem = elim (Bool-cases r.has_context) [
    | inl e ↦ elim (Bool-cases r.on_close) [
      | inl e' ↦ rw (e, e') (refl, refl)
      | inr e' ↦ rw (e, e') (refl, refl)
    ]
    | inr e ↦ elim (Bool-cases r.on_close) [
      | inl e' ↦ rw (e, e') (refl, refl)
      | inr e' ↦ rw (e, e') (refl, refl)
    ]
  ]

  loop_of_close :
      let d = close_everyone mpsc heap reason (record r { closed = true }) channels in
      (left_of d.events
        ≡ (if r.has_context then named_at r.sid r.participants (keys r.participants) else []))
      × (finished_of d.events ≡ [])
  unfolding close_everyone room_to_proto
  loop_of_close =
      let info : RoomInfo = room_to_proto (record r { closed = true }) in
      let before : Closing mpsc = record {
        participants = r.participants;
        channels = channels;
        events = when r.has_context (terminate_room_jobs r.name ∷ release_room r.name ∷ []);
      } in
      (
        loop-left mpsc heap info r.has_context reason (keys r.participants) before
            ∙ ap
                (λ z.
                  z
                  ++ (if r.has_context
                      then named_at r.sid r.participants (keys r.participants)
                      else []))
                (left_of-first r.has_context),
        loop-finished mpsc heap info r.has_context reason (keys r.participants) before
            ∙ finished_of-first r.has_context,
      )

  -- To close an open room, if the room has a context, tells the outside of everybody who is in it, each once,
  -- in the order of the map and by the sid and the identity, that they left this room, and once that this
  -- room is finished; without a context it tells of neither. It calls the callback once, if there is one,
  -- and nobody is in the room afterwards.
  pub close-left_of :
      r.closed ≡ false
      → let (closed_room, done) = close mpsc heap reason r channels in
        (closed_room.closed ≡ true)
        × (closed_room.participants ≡ [])
        × (left_of done.events
            ≡ (if r.has_context then named_at r.sid r.participants (keys r.participants) else []))
        × (finished_of done.events ≡ (if r.has_context then r.sid ∷ [] else []))
        × (occurrences is_on_close done.events ≡ (if r.on_close then 1 else 0))
  unfolding close
  close-left_of running =
      let d : Closing mpsc =
        close_everyone mpsc heap reason (record r { closed = true }) channels in
      let (shut, empty, _, _, called) = close_lem mpsc heap reason r channels running in
      (
        shut,
        empty,
        rw running (
            left_of-append d.events last_events
            ∙ ap₂ (λ x y. x ++ y) (loop_of_close.0) last_events_lem.0
            ∙ append-nil _),
        rw running (
            finished_of-append d.events last_events
            ∙ ap₂ (λ x y. x ++ y) (loop_of_close.1) last_events_lem.1),
        called,
      )
