-- ===== src/Examples.antt =====
-- Rooms, participants and channels that the theorems are run on.
pub mod Data
pub mod RoomRuns
pub mod CloseRuns
pub mod ParticipantRuns
pub mod SessionRuns
pub mod MediaRuns
pub mod AgentRuns
pub mod RequestRuns
pub mod ServerRuns
pub mod WavRuns
pub mod DispatchRuns
pub mod ClusterRuns
pub mod CallRuns
pub mod ServiceRuns
pub mod SipRuns
pub mod EgressRuns
pub mod TrunkRuns
