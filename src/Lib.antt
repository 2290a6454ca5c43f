-- ===== src/Lib.antt =====
-- A verification library for livekit-rs-voice, a voice-only LiveKit server (crates/lk-server) and its
-- recorder (crates/lk-egress).
--
-- The server keeps rooms; a room keeps participants, a participant its published tracks, its state
-- and a channel to its client. Sessions (signal.rs) call the operations of rooms and participants; a
-- background task closes the rooms that are due. What is modelled, file by file:
--
--   Core         crates/lk-server/src/core.rs: TimedVersion, VersionCounter, ParticipantKind.
--   Track        crates/lk-server/src/track.rs: PublishedTrack and its sources.
--   Auth         crates/lk-server/src/auth.rs: the types of a verified token and what it grants.
--   Proto        protos/livekit_models.proto: the messages that are built, with the fields filled in.
--   Media        crates/lk-server/src/media.rs: the media state that a participant carries.
--   Participant  crates/lk-server/src/participant.rs: every operation of a participant.
--   Media/RtpStats, Media/Streams   the packet counters of crates/lk-server/src/media.rs.
--   AudioLevel   crates/lk-server/src/audio_level.rs: who speaks.
--   Channels     the responses of protos/livekit_rtc.proto, and tokio's channels as a parameter.
--   Room         crates/lk-server/src/room.rs: membership, timers, updates (Room/Broadcast) and the
--                end of a room (Room/Close, with what it tells in Closing and Telling).
--   Events       what rooms and sessions do outside themselves.
--   Session      crates/lk-server/src/signal.rs: join_room, resume_room_participant, end_participant
--                (Session/Ending, Leaving), the grace period, data packets (Session/Data) and requests (Session/Requests).
--   Agent        crates/lk-server/src/agent.rs: workers, dispatches, offers and the end of jobs.
--   Server       crates/lk-server/src/server.rs: the rooms of a server and the task that closes them.
--   Wav          crates/lk-egress/src/wav.rs: the WAV files that the recorder writes.
--   DispatchRules   crates/lk-server/src/ioservice.rs: the rule that an incoming SIP call follows.
--   Cluster      crates/lk-server/src/cluster.rs: the bus as an interface (ClusterBus, HashLaws), the bus in
--                memory that fills it (Cluster/Memory; it reads "$" from the beginning of a stream, which Redis does
--                not), the routing of rooms (Routing, Steps, Safety, Owners) and the relay of signals (Relay,
--                Delivery; RoundTrip on the bus in memory).
--   Psrpc        crates/lk-psrpc/src/lib.rs: channel names, the client and the server of a remote call.
--   RoomService  crates/lk-server/src/services.rs: the calls of the room service (RoomService/Rooms, Participants,
--                Calls) and of the agent dispatch service (RoomService/Dispatches), with the tasks that they spawn.
--   SipIo        crates/lk-server/src/ioservice.rs: the trunk of a SIP call (SipIo, SipIo/Trunks), what its rule
--                makes of it (SipIo/Evaluate, Accepting), and the reports of the recorder (SipIo/EgressIo).
--   Egress       crates/lk-egress/src/server.rs and redact.rs: where recordings go (Egress/Destinations, Specs),
--                what is reported of a request (Redact, Secrecy) and the jobs (Recorder; Capacity lets requests
--                overlap, between their checks and the rest); a recording as recorder and server see it is in
--                Egress/Recording. The urls of streams and the redaction of their keys are left out.
--   SipService   crates/lk-server/src/services_sip.rs with redis_store.rs: the calls that keep trunks
--                (SipService/Trunks) and dispatch rules (Rules), and what the store keeps (Keeping, Updating).
--   Examples     instances of the theorems and tests.
--
-- Conventions. An operation that changes an object returns the new object, with its result beside it.
-- The clock is an argument `now` in microseconds, read once by each operation; the random ids that
-- the source draws are arguments. Maps are association lists with distinct keys; what goes through a map goes
-- in the order of its list, whatever that is. Numbers are ℕ: i64 times are those after 1970, differences of times are
-- signed (Base/Signed), casts to u32 keep their wrap-around. Tracks and agent workers are shared objects on
-- a heap, held by address. The state of a participant is an atomic cell, and `set_state` is modelled for any
-- interleaving of threads; the start of recordings (Egress/Capacity) for overlapping requests; the other operations are modelled
-- one at a time, each run to its end. A
-- room's calls of webhooks, metrics, agents and the cluster are a list of events, in order.
--
-- No loop of the modelled code needs fuel: all run over lists, but for the compare-exchange loop of
-- `set_state`, whose rounds are the steps of a schedule, the eight rounds of `route_room`, which are
-- counted down, and the reader of the relay, which runs over the answers of the bus.
--
-- Not modelled: sockets, tasks and HTTP, the WebRTC, Redis and JWT libraries, encoders; and, as yet,
-- the modules of the server and the recorder that are not named above.
pub mod Agent
pub mod AudioLevel
pub mod Auth
pub mod Base
pub mod Channels
pub mod Cluster
pub mod Core
pub mod DispatchRules
pub mod Egress
pub mod Events
pub mod Examples
pub mod Media
pub mod Participant
pub mod Proto
pub mod Psrpc
pub mod Room
pub mod RoomService
pub mod Server
pub mod Session
pub mod SipIo
pub mod SipService
pub mod Track
pub mod Wav
