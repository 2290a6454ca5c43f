-- ===== src/Server/Timeouts.antt =====
-- crates/lk-server/src/server.rs: which rooms a server keeps.
use livekit_rs_voice.Base.{
  ℕ, ◌≡◌, refl, sym, subst, Bool, true, false, not, List, [], ◌∷◌, Option, none, some, String,
  str_eq, eq_iff, arith, if◌then◌else◌, is_some, any_of, get, insert, keys, get-insert, get-remove,
  any_of-keys, Option-cases, inl, inr,
}
use livekit_rs_voice.Participant.{Heap}
use livekit_rs_voice.Channels.{Mpsc}
use livekit_rs_voice.Room.{Room, Limits, new_room, set_on_close, should_close}
use livekit_rs_voice.Room.Close.{close}
use livekit_rs_voice.Server.{
  RoomManager, get_or_create_room, get_room, Running, close_kept, check_room, check_rooms,
  check_room_timeouts, on_room_closed, remove_room, room_closed,
}

-- Rooms are kept under their names, with their callback, as long as they are open.
abbrev pub IsKept : String → Room → Type 0
IsKept name r = (r.name ≡ name) × (r.on_close ≡ true) × (r.closed ≡ false)

pub record KeepsRooms (m : RoomManager) : Type 0 where
  pub kept : (name : String) (r : Room) → get name m.rooms ≡ some r → IsKept name r

module _ (sid : String) (now : ℕ) (limits : Limits) (name : String) (m : RoomManager) where
  pub got-found :
      (r : Room)
      → get name m.rooms ≡ some r
      → get_or_create_room sid now limits name m ≡ (m, r, false)
  unfolding get_or_create_room
  got-found r h = rw (h, get_or_create_room) refl

  abbrev pub made : Room
  made = set_on_close (new_room sid now name (some limits))

  pub got-new :
      get name m.rooms ≡ none
      → get_or_create_room sid now limits name m
        ≡ (record m { rooms = insert name made m.rooms }, made, true)
  unfolding get_or_create_room
  got-new h = rw (h, get_or_create_room) refl

  made-IsKept : IsKept name made
  unfolding set_on_close new_room
  made-IsKept = (refl, refl, refl)

  insert-KeepsRooms :
      (r : Room)
      → IsKept name r
      → KeepsRooms m
      → KeepsRooms (record m { rooms = insert name r m.rooms })
  insert-KeepsRooms r k ok = record {
    kept = λ other q h.
        ground (arith, h, k, get-insert name other r m.rooms, eq_iff name other, ok.kept other q);
  }

-- What a call for a room of the name gives, from the manager before.
abbrev pub GivesRoom : String → String → RoomManager → RoomManager × Room × Bool → Type 0
GivesRoom name other m (m', r, created) =
    (get_room other m' ≡ (if str_eq name other then some r else get_room other m))
    × (created ≡ not (is_some (get_room name m)))
    × KeepsRooms m'

-- A room that is got or made is there under its name, the other rooms are as they were, and the rooms
-- are still kept as they were.
pub get_or_create_room_lem :
    (sid : String) (now : ℕ) (limits : Limits) (name other : String) (m : RoomManager)
    → KeepsRooms m
    → GivesRoom name other m (get_or_create_room sid now limits name m)
unfolding get_room
get_or_create_room_lem sid now limits name other m ok = elim (Option-cases (get name m.rooms)) [
  | inl missing ↦ subst (GivesRoom name other m) (sym (got-new sid now limits name m missing)) (
    get-insert name other (made sid now limits name m) m.rooms,
    ground (arith, missing),
    insert-KeepsRooms sid now limits name m (made sid now limits name m)
        (made-IsKept sid now limits name m) ok,
  )
  | inr (r, found) ↦
      subst (GivesRoom name other m) (sym (got-found sid now limits name m r found))
        (ground (arith, found, eq_iff name other), ground (arith, found), ok)
]

name-close :
    (mpsc : Mpsc) (heap : Heap) (reason : ℕ) (r : Room) (channels : mpsc.Channels)
    → (close mpsc heap reason r channels).0.name ≡ r.name
unfolding close
name-close mpsc heap reason r channels = ground arith

-- What a check leaves of what is kept under a name.
abbrev pub left_of : ℕ → Option Room → Option Room
left_of now none = none
left_of now (some r) = if should_close now r then none else some r

module _ (mpsc : Mpsc) (heap : Heap) where
  pub get-close_kept :
      (reason : ℕ) (name other : String) (r : Room) (s : Running mpsc)
      → IsKept name r
      → get other (close_kept mpsc heap reason name r s).manager.rooms
        ≡ (if str_eq name other then none else get other s.manager.rooms)
  unfolding close_kept on_room_closed remove_room
  get-close_kept reason name other r s (named, called, open_still) =
      let r' : Room = (close mpsc heap reason r s.channels).0 in
      ground (
        arith,
        named,
        called,
        open_still,
        name-close mpsc heap reason r s.channels,
        get-remove r'.name other (insert name r' s.manager.rooms),
        get-insert name other r' s.manager.rooms,
        eq_iff name other,
      )

  check_room-due :
      (now : ℕ) (name : String) (r : Room) (s : Running mpsc)
      → get name s.manager.rooms ≡ some r
      → check_room mpsc heap now name s
        ≡ (if should_close now r then close_kept mpsc heap room_closed name r s else s)
  unfolding check_room
  check_room-due now name r s h = rw (h, check_room) refl

  check_room-gone :
      (now : ℕ) (name : String) (s : Running mpsc)
      → get name s.manager.rooms ≡ none
      → check_room mpsc heap now name s ≡ s
  unfolding check_room
  check_room-gone now name s h = rw (h, check_room) refl

  get-check_room :
      (now : ℕ) (name other : String) (s : Running mpsc)
      → KeepsRooms s.manager
      → get other (check_room mpsc heap now name s).manager.rooms ≡ (
          if str_eq name other
          then left_of now (get other s.manager.rooms)
          else get other s.manager.rooms)
  get-check_room now name other s ok = elim (Option-cases (get name s.manager.rooms)) [
    | inl missing ↦ ground (arith, missing, check_room-gone now name s missing, eq_iff name other)
    | inr (r, found) ↦ ground (
      arith,
      found,
      check_room-due now name r s found,
      get-close_kept room_closed name other r s (ok.kept name r found),
      eq_iff name other,
    )
  ]

  check_room-KeepsRooms :
      (now : ℕ) (name : String) (s : Running mpsc)
      → KeepsRooms s.manager
      → KeepsRooms (check_room mpsc heap now name s).manager
  check_room-KeepsRooms now name s ok = record {
    kept = λ other r h. elim (Option-cases (get other s.manager.rooms)) [
      | inl missing ↦ absurd (ground (arith, h, missing, get-check_room now name other s ok))
      | inr (q, found) ↦
          ground (arith, h, found, get-check_room now name other s ok, ok.kept other q found)
    ];
  }

  get-check_rooms :
      (now : ℕ) (other : String) (names : List String) (s : Running mpsc)
      → KeepsRooms s.manager
      → get other (check_rooms mpsc heap now names s).manager.rooms ≡ (
          if any_of (λ k. str_eq k other) names
          then left_of now (get other s.manager.rooms)
          else get other s.manager.rooms)
  unfolding check_rooms
  get-check_rooms now other [] s ok = refl
  get-check_rooms now other (name ∷ names) s ok = elim (Option-cases (get other s.manager.rooms)) [
    | inl missing ↦ ground (
      arith,
      missing,
      get-check_rooms now other names (check_room mpsc heap now name s)
          (check_room-KeepsRooms now name s ok),
      get-check_room now name other s ok,
    )
    | inr (r, found) ↦ ground (
      arith,
      found,
      get-check_rooms now other names (check_room mpsc heap now name s)
          (check_room-KeepsRooms now name s ok),
      get-check_room now name other s ok,
    )
  ]

  -- A tick takes out of the server exactly the rooms that are due, and the others stay as they are.
  pub check_room_timeouts_lem :
      (now : ℕ) (name : String) (s : Running mpsc)
      → KeepsRooms s.manager
      → get_room name (check_room_timeouts mpsc heap now s).manager
        ≡ left_of now (get_room name s.manager)
  unfolding check_room_timeouts get_room
  check_room_timeouts_lem now name s ok = ground (
    arith,
    get-check_rooms now name (keys s.manager.rooms) s ok,
    any_of-keys name s.manager.rooms,
    Option-cases (get name s.manager.rooms),
  )
