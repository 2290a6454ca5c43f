-- ===== src/Auth.antt =====
-- crates/lk-server/src/auth.rs: what a verified access token grants.
use livekit_rs_voice.Base.{ℕ, Bool, true, Option, List, String, Map, unwrap_or}

pub record VideoGrant : Type 0 where
  pub room_create : Bool
  pub room_list : Bool
  pub room_record : Bool
  pub room_admin : Bool
  pub room_join : Bool
  pub room : String
  pub can_publish : Option Bool
  pub can_subscribe : Option Bool
  pub can_publish_data : Option Bool
  pub can_publish_sources : List String
  pub can_update_own_metadata : Option Bool
  pub hidden : Bool
  pub recorder : Bool
  pub agent : Bool
  pub can_subscribe_metrics : Option Bool
  pub destination_room : String

pub record SipGrant : Type 0 where
  pub admin : Bool
  pub call : Bool

pub record RoomAgentDispatch : Type 0 where
  pub agent_name : String
  pub metadata : String
  pub deployment : String
  pub attributes : Map String

pub record RoomConfiguration : Type 0 where
  pub name : String
  pub empty_timeout : ℕ
  pub departure_timeout : ℕ
  pub max_participants : ℕ
  pub metadata : String
  pub agents : List RoomAgentDispatch

pub record VerifiedToken : Type 0 where
  pub api_key : String
  pub identity : String
  pub name : String
  pub metadata : String
  pub attributes : Map String
  pub kind : String
  pub video : VideoGrant
  pub sip : SipGrant
  pub room_config : Option RoomConfiguration
  pub room_preset : String
  pub sha256 : String
  pub nbf : Option ℕ

unfoldable pub token_can_publish : VerifiedToken → Bool
token_can_publish t = unwrap_or t.video.can_publish true

unfoldable pub token_can_subscribe : VerifiedToken → Bool
token_can_subscribe t = unwrap_or t.video.can_subscribe true

unfoldable pub token_can_publish_data : VerifiedToken → Bool
unfolding token_can_publish
token_can_publish_data t = unwrap_or t.video.can_publish_data (token_can_publish t)
