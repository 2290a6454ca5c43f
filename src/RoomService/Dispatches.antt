-- ===== src/RoomService/Dispatches.antt =====
-- crates/lk-server/src/services.rs: the calls of the agent dispatch service.
use livekit_rs_voice.Base.{
  ℕ, ◌*◌, ◌≡◌, Bool, not, ◌&&◌, List, [], ◌∷◌, map, Option, none, some, String, str_eq, eq_iff,
  arith, if◌then◌else◌, unwrap_or, Map, get, get-remove, Option-cases, inl, inr,
}
use livekit_rs_voice.Auth.{VideoGrant}
use livekit_rs_voice.Agent.{
  Store, Job, AgentDispatch, AgentManager, ServerMessage, create_dispatch, delete_dispatch,
  get_dispatch, list_dispatches,
}
use livekit_rs_voice.Agent.Termination.{terminate_jobs}
use livekit_rs_voice.RoomService.{
  TwirpError, unauthenticated, invalid_argument, not_found, ensure_admin,
}

-- lk::AgentDispatch with its state.
pub record DispatchInfo : Type 0 where
  pub id : String
  pub agent_name : String
  pub room : String
  pub metadata : String
  pub jobs : List Job
  pub created_at : ℕ
  pub deleted_at : ℕ
  pub deployment : String
  pub attributes : Map String

unfoldable pub dispatch_to_proto : AgentDispatch → DispatchInfo
dispatch_to_proto d = record {
  id = d.id;
  agent_name = d.agent_name;
  room = d.room;
  metadata = d.metadata;
  jobs = d.jobs;
  created_at = d.created_at * 1000000000;
  deleted_at = unwrap_or d.deleted_at 0 * 1000000000;
  deployment = d.deployment;
  attributes = d.attributes;
}

pub record CreateDispatchRequest : Type 0 where
  pub agent_name : String
  pub room : String
  pub metadata : String
  pub deployment : String
  pub attributes : Map String

-- The answer; what is sent to workers; and the dispatch whose job is launched in its room.
pub data DispatchAnswer : Type 0 where
  dispatched :
      AgentManager
      → List DispatchInfo
      → List (ℕ × ServerMessage)
      → Option AgentDispatch
      → DispatchAnswer
  not_dispatched : TwirpError → DispatchAnswer

-- `has_room` says whether the server has the room of the dispatch.
unfoldable pub create_dispatch_call :
    VideoGrant
    → String
    → ℕ
    → (String → Bool)
    → CreateDispatchRequest
    → AgentManager
    → DispatchAnswer
unfolding ensure_admin create_dispatch dispatch_to_proto
create_dispatch_call grant id now has_room req m =
    if not (ensure_admin grant req.room)
    then not_dispatched unauthenticated
    else if str_eq req.agent_name ""
    then not_dispatched (invalid_argument "agent name is required")
    else if str_eq req.room ""
    then not_dispatched (invalid_argument "room is required")
    else let (m', d) =
        create_dispatch id now req.agent_name req.room req.metadata req.deployment req.attributes
          m in
      dispatched m' (dispatch_to_proto d ∷ []) [] (if has_room d.room then some d else none)

abbrev pub deleted : Store → AgentManager × Option AgentDispatch → DispatchAnswer
deleted store (m, none) = not_dispatched (not_found "dispatch not found")
deleted store (m, some d) =
    dispatched m (dispatch_to_proto d ∷ []) (terminate_jobs store m d.jobs) none

unfoldable pub delete_dispatch_call :
    VideoGrant → Store → ℕ → String → String → AgentManager → DispatchAnswer
unfolding ensure_admin delete_dispatch dispatch_to_proto terminate_jobs
delete_dispatch_call grant store now room dispatch_id m =
    if not (ensure_admin grant room)
    then not_dispatched unauthenticated
    else deleted store (delete_dispatch dispatch_id now m)

abbrev pub as_list : Option AgentDispatch → List AgentDispatch
as_list none = []
as_list (some d) = d ∷ []

unfoldable pub list_dispatch_call : VideoGrant → String → String → AgentManager → DispatchAnswer
unfolding ensure_admin list_dispatches get_dispatch dispatch_to_proto
list_dispatch_call grant room dispatch_id m =
    let found =
      if str_eq dispatch_id ""
      then list_dispatches room m
      else as_list (get_dispatch dispatch_id m) in
    if not (ensure_admin grant room)
    then not_dispatched unauthenticated
    else dispatched m (map dispatch_to_proto found) [] none

-- The dispatches after a call.
abbrev pub manager_after : DispatchAnswer → AgentManager → AgentManager
manager_after (dispatched m' infos messages launched) m = m'
manager_after (not_dispatched e) m = m

-- DeleteDispatch takes out the dispatch of the id that it is given, and no other, if the token may
-- administer the room that the call names; the room of the dispatch is not asked for, so who may
-- administer one room can delete the dispatches of every other. A refused call changes nothing.
pub delete_dispatch_call_lem :
    (grant : VideoGrant) (store : Store) (now : ℕ) (room dispatch_id other : String)
    (m : AgentManager)
    → get_dispatch other (manager_after (delete_dispatch_call grant store now room dispatch_id m) m)
      ≡ (if (grant.room_admin && str_eq grant.room room) && str_eq dispatch_id other
          then none
          else get_dispatch other m)
unfolding delete_dispatch_call ensure_admin get_dispatch delete_dispatch
delete_dispatch_call_lem grant store now room dispatch_id other m =
    elim (Option-cases (get dispatch_id m.dispatches)) [
      | inl missing ↦
          ground
            (arith, missing, eq_iff dispatch_id other, get-remove dispatch_id other m.dispatches)
      | inr (d, found) ↦
          ground (arith, found, eq_iff dispatch_id other, get-remove dispatch_id other m.dispatches)
    ]
