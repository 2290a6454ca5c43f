-- ===== src/Examples/ServerRuns.antt =====
-- Tests and instances of the theorems on the rooms of a server (crates/lk-server/src/server.rs).
use livekit_rs_voice.Base.{◌≡◌, refl, Bool, none, [], get, insert, remove}
use livekit_rs_voice.Room.{
  Room, new_room, set_on_close, should_close, elapsed, timeout, has_non_dependent,
}
use livekit_rs_voice.Room.Close.{close}
use livekit_rs_voice.Server.{
  RoomManager, new_server, get_or_create_room, get_room, Running, check_room_timeouts,
}
use livekit_rs_voice.Server.Timeouts.{
  KeepsRooms, get_or_create_room_lem, left_of, check_room_timeouts_lem,
}
use livekit_rs_voice.Examples.Data.{unbounded, quiet, heap, limits}

new_server-KeepsRooms : KeepsRooms new_server
unfolding new_server get
new_server-KeepsRooms = record { kept = λ name r h. absurd cc }

abbrev called : RoomManager × Room × Bool
called = get_or_create_room "RM_1" 1000 limits "lobby" new_server

abbrev running : Running unbounded
running = record { manager = called.0; channels = quiet; events = [] }

running-KeepsRooms : KeepsRooms called.0
running-KeepsRooms =
    (get_or_create_room_lem "RM_1" 1000 limits "lobby" "lobby" new_server new_server-KeepsRooms).2

-- The lobby, which nobody joins, is due 300 seconds after it was made.
check_room_timeouts_lem_example :
    get_room "lobby" (check_room_timeouts unbounded heap 300001000 running).manager
    ≡ left_of 300001000 (get_room "lobby" called.0)
check_room_timeouts_lem_example =
    check_room_timeouts_lem unbounded heap 300001000 "lobby" running running-KeepsRooms

lobby_goes : get_room "lobby" (check_room_timeouts unbounded heap 300001000 running).manager ≡ none
unfolding get_or_create_room new_room set_on_close new_server check_room_timeouts get_room insert
    get remove should_close elapsed timeout has_non_dependent close
lobby_goes = refl
