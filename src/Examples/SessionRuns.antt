-- ===== src/Examples/SessionRuns.antt =====
-- Tests and instances of the theorems on sessions (crates/lk-server/src/signal.rs).
use livekit_rs_voice.Base.{
  ◌≡◌, refl, ◌↔◌, ◌⊎◌, inl, inr, true, false, none, some, [], ◌∷◌, String, insert,
}
use livekit_rs_voice.Core.{standard, is_dependent, bump}
use livekit_rs_voice.Auth.{VideoGrant, VerifiedToken, RoomAgentDispatch, RoomConfiguration}
use livekit_rs_voice.Participant.{
  Participant, attach_room, new_participant, state, is_disconnected, participant_to_proto,
}
use livekit_rs_voice.Room.{
  Room, on_participant_left, remove_participant, new_room, join, admit, is_full,
  get_participant_by_identity, has_non_dependent,
}
use livekit_rs_voice.Room.Membership.{IsConsistent, join-IsConsistent}
use livekit_rs_voice.Room.Lifetime.{IsTimed}
use livekit_rs_voice.Session.{
  SessionParams, refused, full_or_closed, unchanged, joining_participant, end_participant,
  end_duplicate, enter_room, resume_room_participant, grace_task, grace_expires, signal_close,
}
use livekit_rs_voice.Session.Grace.{resume-grace_expires}
use livekit_rs_voice.Session.Joining.{end_duplicate_lem}
use livekit_rs_voice.Session.Entering.{cleared, enter_room_iff}
use livekit_rs_voice.Examples.Data.{unbounded, quiet, heap, alice, lobby}
use livekit_rs_voice.Examples.RoomRuns.{one_in, lobby-IsConsistent}

abbrev grant : VideoGrant
grant = record {
  room_create = false;
  room_list = false;
  room_record = false;
  room_admin = false;
  room_join = true;
  room = "lobby";
  can_publish = none;
  can_subscribe = none;
  can_publish_data = none;
  can_publish_sources = [];
  can_update_own_metadata = none;
  hidden = false;
  recorder = false;
  agent = false;
  can_subscribe_metrics = none;
  destination_room = "";
}

abbrev scribe : RoomAgentDispatch
scribe = record { agent_name = "scribe"; metadata = ""; deployment = ""; attributes = [] }

abbrev with_scribe : RoomConfiguration
with_scribe = record {
  name = "";
  empty_timeout = 0;
  departure_timeout = 0;
  max_participants = 0;
  metadata = "";
  agents = scribe ∷ [];
}

abbrev token : String → VerifiedToken
token identity = record {
  api_key = "key";
  identity = identity;
  name = identity;
  metadata = "";
  attributes = [];
  kind = "";
  video = grant;
  sip = record { admin = false; call = false };
  room_config = some with_scribe;
  room_preset = "";
  sha256 = "";
  nbf = none;
}

abbrev params : SessionParams
params = record {
  reconnect = false;
  participant_sid = "";
  auto_subscribe = true;
  publish = true;
  metadata = "";
}

one_in-IsConsistent : IsConsistent one_in
one_in-IsConsistent = join-IsConsistent 2000 alice lobby lobby-IsConsistent

abbrev inside : Participant
inside = attach_room "lobby" alice

one_in-IsTimed : IsTimed one_in
unfolding join admit is_full is_dependent new_room new_participant insert attach_room bump
    has_non_dependent
one_in-IsTimed = inr (inl (refl, refl, refl))

abbrev back : Participant
back = record inside { resume_gen = 1 }

resume-grace_expires_example :
    let r' = (resume_room_participant (token "alice") params one_in).0 in
    (grace_task inside ≡ some inside.resume_gen)
    × (grace_expires unbounded heap 20000 inside.resume_gen back.sid r' quiet
        ≡ unchanged unbounded r' quiet)
    × (grace_task back ≡ some back.resume_gen)
    × (grace_expires unbounded heap 20000 back.resume_gen back.sid r' quiet
        ≡ end_participant unbounded heap 20000 signal_close back.sid r' quiet)
unfolding join admit is_full is_dependent new_room new_participant insert attach_room bump
    get_participant_by_identity resume_room_participant is_disconnected state
resume-grace_expires_example =
    resume-grace_expires unbounded heap 20000 (token "alice") params one_in inside back quiet refl
      refl

end_duplicate_lem_example :
    let after = end_duplicate unbounded heap 7000 "alice" one_in quiet in
    IsConsistent after.room × (get_participant_by_identity "alice" after.room ≡ none)
end_duplicate_lem_example =
    end_duplicate_lem unbounded heap 7000 quiet "alice" one_in one_in-IsConsistent

enter_room_iff_example :
    ((enter_room unbounded heap 7000 "PA_2" (token "alice") params standard one_in quiet).1
      ≡ refused full_or_closed)
    ↔ ((cleared unbounded heap 7000 "PA_2" (token "alice") params standard one_in quiet).closed
          ≡ true
        ⊎ ((is_dependent standard ≡ false)
            × (is_full
                  (cleared unbounded heap 7000 "PA_2" (token "alice") params standard one_in quiet)
                ≡ true)))
enter_room_iff_example =
    enter_room_iff unbounded heap 7000 "PA_2" (token "alice") params standard one_in quiet
      one_in-IsConsistent

-- Bob finds the room full.
abbrev after_bob : Room
after_bob =
    (enter_room unbounded heap 7000 "PA_b" (token "bob") params standard one_in quiet).0.room

abbrev alice_left : Room
alice_left = on_participant_left 9000 (remove_participant 9000 "PA_a" after_bob).0

-- Alice finds the lobby empty.
abbrev newcomer : Participant
newcomer =
    (participant_to_proto heap (
      attach_room "lobby"
        (joining_participant "PA_2" 7000 (token "alice") params standard "lobby"))).0
