-- ===== src/Examples/ServiceRuns.antt =====
-- Tests and instances of the theorems on the room service (crates/lk-server/src/services.rs).
use livekit_rs_voice.Base.{
  ◌≡◌, refl, true, false, not, ◌&&◌, [], none, some, str_eq, if◌then◌else◌, get, insert,
}
use livekit_rs_voice.Auth.{VideoGrant}
use livekit_rs_voice.Participant.{Participant, get_track, add_track, new_participant}
use livekit_rs_voice.Track.{new_track}
use livekit_rs_voice.Room.{Room, new_room, set_on_close}
use livekit_rs_voice.Server.{Running, new_server, get_or_create_room}
use livekit_rs_voice.Agent.{AgentManager, AgentDispatch, new_manager, create_dispatch, get_dispatch}
use livekit_rs_voice.RoomService.{LimitConfig, CreateRoomRequest, Service, room_of}
use livekit_rs_voice.RoomService.Rooms.{make_room, configure}
use livekit_rs_voice.RoomService.Participants.{mute_found, run_mute}
use livekit_rs_voice.RoomService.Calls.{room_service, remove_participant_of, is_denied, may_call}
use livekit_rs_voice.RoomService.Granting.{room_service-is_denied}
use livekit_rs_voice.RoomService.Effects.{state_after, mute_found-run_mute}
use livekit_rs_voice.RoomService.Making.{room_before, given_or, make_room_lem}
use livekit_rs_voice.RoomService.Dispatches.{
  delete_dispatch_call, manager_after, delete_dispatch_call_lem,
}
use livekit_rs_voice.Examples.Data.{unbounded, quiet, heap, limits, alice}
use livekit_rs_voice.Examples.AgentRuns.{store}

-- An administrator of the lobby.
abbrev lobby_admin : VideoGrant
lobby_admin = record {
  room_create = false;
  room_list = false;
  room_record = false;
  room_admin = true;
  room_join = false;
  room = "lobby";
  can_publish = none;
  can_subscribe = none;
  can_publish_data = none;
  can_publish_sources = [];
  can_update_own_metadata = none;
  hidden = false;
  recorder = false;
  agent = false;
  can_subscribe_metrics = none;
  destination_room = "";
}

abbrev config : LimitConfig
config = record { max_metadata = 64000; max_attributes = 64000; max_room_name_length = 256 }

abbrev got : Running unbounded
got = record {
  manager = (get_or_create_room "RM_1" 1000 limits "lobby" new_server).0;
  channels = quiet;
  events = [];
}

abbrev service : Service unbounded
service = record { running = got; heap = heap }

room_service-is_denied_example :
    is_denied (
      room_service unbounded lobby_admin config "RM_2" 5000 limits
        (remove_participant_of "stage" "alice")
        service)
    ≡ not (may_call lobby_admin (remove_participant_of "stage" "alice"))
room_service-is_denied_example =
    room_service-is_denied unbounded lobby_admin config "RM_2" 5000 limits
      (remove_participant_of "stage" "alice") service

abbrev with_track : Participant
with_track = add_track heap 0 alice

mute_found-run_mute_example :
    let s₁ =
      state_after (mute_found unbounded 5000 "lobby" with_track "TR_0" 0 true service) service in
    let s₂ = run_mute unbounded 6000 "lobby" with_track "TR_0" true s₁ in
    (s₂.running ≡ service.running) × ((s₂.heap 0).muted ≡ true)
unfolding add_track insert get new_participant get_track new_track
mute_found-run_mute_example =
    mute_found-run_mute unbounded 5000 6000 "lobby" with_track "TR_0" 0 true service refl

abbrev made_lobby : Room
made_lobby = set_on_close (new_room "RM_1" 1000 "lobby" (some limits))

abbrev request : CreateRoomRequest
request = record {
  name = "stage";
  metadata = "live";
  empty_timeout = 0;
  departure_timeout = 60;
  max_participants = 4;
  agents = [];
}

make_room_lem_example :
    let s' = state_after (make_room unbounded "RM_2" 5000 limits request service) service in
    let r = room_before "RM_2" 5000 limits "stage" (room_of unbounded "stage" service) in
    let r' = configure 5000 request r in
    (room_of unbounded "lobby" s'
      ≡ (if str_eq "stage" "lobby" then some r' else room_of unbounded "lobby" service))
    × (r'.empty_timeout ≡ given_or 0 r.empty_timeout)
    × (r'.departure_timeout ≡ given_or 60 r.departure_timeout)
    × (r'.max_participants ≡ given_or 4 r.max_participants)
    × (r'.participants ≡ r.participants)
    × (r'.metadata ≡ (if str_eq "live" "" then r.metadata else "live"))
make_room_lem_example = make_room_lem unbounded "RM_2" 5000 limits request "lobby" service

-- A dispatch of the stage.
abbrev stage_dispatch : AgentManager × AgentDispatch
stage_dispatch = create_dispatch "AD_9" 5000000 "scribe" "stage" "" "" [] new_manager

delete_dispatch_call_lem_example :
    get_dispatch "AD_9" (
      manager_after
        (delete_dispatch_call lobby_admin store 6000000 "lobby" "AD_9" stage_dispatch.0)
        stage_dispatch.0)
    ≡ (if (true && str_eq "lobby" "lobby") && str_eq "AD_9" "AD_9"
        then none
        else get_dispatch "AD_9" stage_dispatch.0)
delete_dispatch_call_lem_example =
    delete_dispatch_call_lem lobby_admin store 6000000 "lobby" "AD_9" "AD_9" stage_dispatch.0
