-- ===== src/Examples/RoomRuns.antt =====
-- Tests and instances of the theorems on rooms (crates/lk-server/src/room.rs).
use livekit_rs_voice.Base.{
  ℕ, ◌≡◌, refl, ◌↔◌, ◌⊎◌, inr, true, false, none, some, arith, if◌then◌else◌, leb, get, insert,
  remove, length, select, any_of, not, ◌<◌, ◌&&◌, ◌||◌, str_eq,
}
use livekit_rs_voice.Core.{standard, is_dependent, unix_millis, bump}
use livekit_rs_voice.Participant.{Participant, attach_room, new_participant}
use livekit_rs_voice.Room.{
  Room, new_room, join, admit, remove_participant, on_participant_left, has_non_dependent, everyone,
  should_close, timeout, is_full,
}
use livekit_rs_voice.Room.Membership.{join_lem, FitsCapacity, IsConsistent, join-IsConsistent}
use livekit_rs_voice.Room.Lifetime.{joins, leaves, Reach, start, next, Reach-closes}
use livekit_rs_voice.Examples.Data.{unbounded, person, alice, helper, lobby, limits}

-- Alice joins, the helper joins past the capacity, Bob does not get in, Alice leaves.
abbrev pub one_in : Room
one_in = (join 2000 alice lobby).0

abbrev two_in : Room
two_in = (join 3000 helper one_in).0

abbrev left : Room
left = on_participant_left 9000000 (remove_participant 9000000 "PA_a" two_in).0

bob_is_refused : (join 4000 (person "PA_b" "bob" standard) two_in).1 ≡ false
unfolding join admit is_full is_dependent new_room new_participant insert attach_room bump
bob_is_refused = refl

helper_gets_in : (join 3000 helper one_in).1 ≡ true
unfolding join admit is_full is_dependent new_room new_participant insert attach_room bump
helper_gets_in = refl

join_lem_example :
    let (r', joined) = join 2000 alice lobby in
    ((joined ≡ true) ↔ (
      (lobby.closed ≡ false)
      × ((is_dependent alice.kind ≡ true)
          ⊎ (lobby.max_participants ≡ 0)
          ⊎ (length (select (λ q. not (is_dependent q.kind)) (everyone lobby))
              < lobby.max_participants))
      × (any_of (λ q. str_eq q.identity alice.identity) (everyone lobby) ≡ false)))
    × (get "PA_a" r'.participants ≡ (
        if joined && str_eq alice.sid "PA_a"
        then some (record alice { room = some lobby.name })
        else get "PA_a" lobby.participants))
    × (r'.ever_joined ≡ (lobby.ever_joined || (joined && not (is_dependent alice.kind))))
    × (r'.empty_since
        ≡ (if joined && not (is_dependent alice.kind) then none else lobby.empty_since))
    × (r'.closed ≡ lobby.closed)
    × ((if joined then r' else lobby) ≡ r')
join_lem_example = join_lem 2000 "PA_a" alice lobby

lobby-FitsCapacity : FitsCapacity lobby
unfolding new_room
lobby-FitsCapacity = inr (omega arith)

pub lobby-IsConsistent : IsConsistent lobby
unfolding new_room get
lobby-IsConsistent = record {
  distinct = tt;
  keyed = λ s p h. cc;
  attached = λ s p h. cc;
  unique = λ s s' p p' h h' e. cc;
}

one_in-IsConsistent : IsConsistent one_in
one_in-IsConsistent = join-IsConsistent 2000 alice lobby lobby-IsConsistent

abbrev alice_inside : Participant
alice_inside = attach_room "lobby" alice

history : Reach unbounded lobby left
unfolding join admit is_full is_dependent new_room new_participant insert attach_room bump get
history =
    next (next (next start (joins 2000 alice lobby refl)) (joins 3000 helper one_in refl))
      (leaves 9000000 "PA_a" two_in)

Reach-closes_example :
    (due : ℕ) × ((later : ℕ) → should_close later left ≡ leb due (unix_millis later))
unfolding join admit is_full is_dependent new_room new_participant insert attach_room bump remove
    get remove_participant on_participant_left has_non_dependent timeout
Reach-closes_example =
    Reach-closes "RM_1" 1000 "lobby" (some limits) history refl refl (omega arith)

left_is_due : should_close 29000000 left ≡ true
unfolding should_close join admit is_full is_dependent new_room new_participant insert attach_room
    bump remove get remove_participant on_participant_left has_non_dependent timeout
left_is_due = refl
