-- ===== src/Room/Lifetime.antt =====
-- crates/lk-server/src/room.rs: when a room is due to close, over every history of joins and leaves.
use livekit_rs_voice.Base.{
  leb, ℕ, ◌+◌, ◌*◌, ◌≤◌, ◌<◌, ◌≡◌, sym, refl, ◌∙◌, subst, ◌≢◌, ◌↔◌, ◌⊎◌, inl, inr, true, false,
  Option, none, some, String, arith, if◌then◌else◌, is_some, get, any_of-values-insert_new,
  any_of-values-remove, remove_absent, Bool-cases, Option-cases,
}
use livekit_rs_voice.Core.{unix_millis}
use livekit_rs_voice.Participant.{Participant, Heap, attach_room}
use livekit_rs_voice.Channels.{Mpsc}
use livekit_rs_voice.Room.{
  Room, Limits, new_room, counts, join, admit, remove_participant, on_participant_left,
  has_non_dependent, reaches, elapsed_since, should_close, timeout, empty_since_ms,
  update_room_metadata, set_empty_timeout, set_departure_timeout, set_max_participants,
}
use livekit_rs_voice.Room.Close.{close}
use livekit_rs_voice.Room.Closing.{closed-close}

-- `limit` milliseconds or more have passed since `start`.
abbrev pub HasPassed : ℕ → Option ℕ → ℕ → Type 0
HasPassed limit none now = ⊥
HasPassed limit (some start) now = start + limit ≤ now

reaches-HasPassed :
    (limit : ℕ) (start : Option ℕ) (now : ℕ)
    → 0 < limit
    → (reaches limit (elapsed_since now start) ≡ true) ↔ HasPassed limit start now
reaches-HasPassed limit none now h = ground arith
reaches-HasPassed limit (some start) now h = ground arith

-- A room is due exactly when it is open, nobody who counts is in it, its timeout is not 0, and that
-- many seconds have passed: since it fell empty if somebody who counts was ever in it, else since it
-- was made.
pub should_close_iff :
    (now : ℕ) (r : Room)
    → (should_close now r ≡ true) ↔ (
        (r.closed ≡ false)
        × (has_non_dependent r ≡ false)
        × (timeout r ≢ 0)
        × HasPassed
            (timeout r * 1000)
            (if r.ever_joined then r.empty_since else some r.creation_time_ms)
            (unix_millis now))
unfolding should_close empty_since_ms
should_close_iff now r = ground (
  arith,
  reaches-HasPassed (timeout r * 1000) r.empty_since (unix_millis now),
  reaches-HasPassed (timeout r * 1000) (some r.creation_time_ms) (unix_millis now),
)

-- What every history keeps: an open room that somebody who counts is in has been joined and runs no
-- timer, and one that has been joined and that only dependents are in runs one.
abbrev pub IsTimed : Room → Type 0
IsTimed r =
    (r.closed ≡ true)
    ⊎ ((has_non_dependent r ≡ true) × (r.ever_joined ≡ true) × (r.empty_since ≡ none))
    ⊎ ((has_non_dependent r ≡ false) × ((r.ever_joined ≡ false) ⊎ (is_some r.empty_since ≡ true)))

join-IsTimed :
    (now : ℕ) (p : Participant) (r : Room)
    → get p.sid r.participants ≡ none
    → IsTimed r
    → IsTimed (join now p r).0
unfolding join admit has_non_dependent attach_room
join-IsTimed now p r fresh timed =
    ground (arith, any_of-values-insert_new counts p.sid (attach_room r.name p) r.participants)

pub leave-IsTimed :
    (now : ℕ) (sid : String) (r : Room)
    → IsTimed r
    → IsTimed (on_participant_left now (remove_participant now sid r).0)
unfolding remove_participant on_participant_left has_non_dependent
leave-IsTimed now sid r timed =
    ground (arith, remove_absent sid r.participants, any_of-values-remove counts sid r.participants)

close-IsTimed :
    (mpsc : Mpsc) (heap : Heap) (reason : ℕ) (r : Room) (channels : mpsc.Channels)
    → IsTimed (close mpsc heap reason r channels).0
close-IsTimed mpsc heap reason r channels = inl (closed-close mpsc heap reason r channels)

-- What happens to a room. A participant joins under a sid that is new there; one that leaves is
-- removed and then counted out, as `end_participant` does.
pub data Step (mpsc : Mpsc) : Room → Room → Type 0 where
  joins :
      (now : ℕ) (p : Participant) (r : Room)
      → get p.sid r.participants ≡ none
      → Step mpsc r (join now p r).0
  leaves :
      (now : ℕ) (sid : String) (r : Room)
      → Step mpsc r (on_participant_left now (remove_participant now sid r).0)
  retitles :
      (now : ℕ) (metadata : String) (r : Room) → Step mpsc r (update_room_metadata now metadata r).0
  limits :
      (empty departure most : ℕ) (r : Room)
      → Step mpsc r
          (set_max_participants most (set_departure_timeout departure (set_empty_timeout empty r)))
  closes :
      (heap : Heap) (reason : ℕ) (r : Room) (channels : mpsc.Channels)
      → Step mpsc r (close mpsc heap reason r channels).0

pub data Reach (mpsc : Mpsc) (r : Room) : Room → Type 0 where
  start : Reach mpsc r r
  next : {s t : Room} → Reach mpsc r s → Step mpsc s t → Reach mpsc r t

Step-IsTimed : {mpsc : Mpsc} {r s : Room} → Step mpsc r s → IsTimed r → IsTimed s
unfolding update_room_metadata set_empty_timeout set_departure_timeout set_max_participants
    has_non_dependent
Step-IsTimed (joins now p r fresh) timed = join-IsTimed now p r fresh timed
Step-IsTimed (leaves now sid r) timed = leave-IsTimed now sid r timed
Step-IsTimed (retitles now metadata r) timed = ground arith
Step-IsTimed (limits empty departure most r) timed = ground arith
Step-IsTimed {mpsc} (closes heap reason r channels) timed =
    close-IsTimed mpsc heap reason r channels

-- Nothing of that forgets an agent dispatch of the room.
Step-agents : {mpsc : Mpsc} {r s : Room} → Step mpsc r s → s.agents ≡ r.agents
unfolding join admit remove_participant on_participant_left update_room_metadata set_empty_timeout
    set_departure_timeout set_max_participants close
Step-agents (joins now p r fresh) = ground arith
Step-agents (leaves now sid r) = ground arith
Step-agents (retitles now metadata r) = ground arith
Step-agents (limits empty departure most r) = ground arith
Step-agents (closes heap reason r channels) = ground arith

pub Reach-agents : {mpsc : Mpsc} {r s : Room} → Reach mpsc r s → s.agents ≡ r.agents
Reach-agents start = refl
Reach-agents (next reach step) = Step-agents step ∙ Reach-agents reach

new_room-IsTimed :
    (sid : String) (now : ℕ) (name : String) (config : Option Limits)
    → IsTimed (new_room sid now name config)
unfolding new_room has_non_dependent
new_room-IsTimed sid now name config = ground arith

Reach-keeps : {mpsc : Mpsc} {r s : Room} → IsTimed r → Reach mpsc r s → IsTimed s
Reach-keeps timed start = timed
Reach-keeps timed (next reach step) = Step-IsTimed step (Reach-keeps timed reach)

-- After any history from a new room, an open room that somebody who counts is in has been joined and
-- has no timer running, and one that somebody who counts has left to dependents alone has one.
pub Reach-IsTimed :
    {mpsc : Mpsc} {r : Room} (sid : String) (now : ℕ) (name : String) (config : Option Limits)
    → Reach mpsc (new_room sid now name config) r
    → IsTimed r
Reach-IsTimed sid now name config reach = Reach-keeps (new_room-IsTimed sid now name config) reach

should_close_from :
    (later t : ℕ) (r : Room)
    → r.closed ≡ false
    → has_non_dependent r ≡ false
    → timeout r ≢ 0
    → (if r.ever_joined then r.empty_since else some r.creation_time_ms) ≡ some t
    → should_close later r ≡ leb (t + timeout r * 1000) (unix_millis later)
should_close_from later t r running idle limit since = ground (
  arith,
  should_close_iff later r,
  subst
      (λ o.
        HasPassed (timeout r * 1000) o (unix_millis later)
        ↔ (t + timeout r * 1000 ≤ unix_millis later))
      (sym since) (λ h. h, λ h. h),
)

-- No history traps a room: once an open room whose timeout is not 0 holds nobody who counts, there is
-- a time from which on, and not before, it is due at every check.
pub Reach-closes :
    {mpsc : Mpsc} {r : Room} (sid : String) (now : ℕ) (name : String) (config : Option Limits)
    → Reach mpsc (new_room sid now name config) r
    → r.closed ≡ false
    → has_non_dependent r ≡ false
    → timeout r ≢ 0
    → (due : ℕ) × ((later : ℕ) → should_close later r ≡ leb due (unix_millis later))
Reach-closes {r} sid now name config reach running idle limit = elim (Bool-cases r.ever_joined) [
  | inl joined ↦ elim (Option-cases r.empty_since) [
    | inl missing ↦ absurd (ground (arith, Reach-IsTimed sid now name config reach))
    | inr (t, since) ↦ (
      t + timeout r * 1000,
      λ later. should_close_from later t r running idle limit (ground arith),
    )
  ]
  | inr never ↦ (
    r.creation_time_ms + timeout r * 1000,
    λ later. should_close_from later r.creation_time_ms r running idle limit (ground arith),
  )
]
