-- ===== src/SipService.antt =====
-- crates/lk-server/src/services_sip.rs: the trunks and dispatch rules of the SIP service, in the store of
-- redis_store.rs. Of the messages, the fields that are matched on or written; times are left out. The
-- store is a map for each kind of record, and does not fail.
pub mod ListUpdates
pub mod Trunks
pub mod Rules
pub mod Keeping
pub mod Updating
use livekit_rs_voice.Base.{
  ℕ, ◌≡◌, Bool, true, false, not, ◌&&◌, ◌||◌, List, [], ◌∷◌, ◌++◌, Option, none, some, String,
  str_eq, if◌then◌else◌, any_of, select, Map, get, insert, remove,
}
use livekit_rs_voice.Auth.{SipGrant}
use livekit_rs_voice.DispatchRules.{SipDispatchRuleInfo, is_empty_list}
use livekit_rs_voice.SipIo.{SipInboundTrunkInfo, SipMediaConfig}
use livekit_rs_voice.RoomService.{TwirpError}

pub record ListUpdate : Type 0 where
  pub clear : Bool
  pub set : List String
  pub add : List String
  pub remove : List String

pub record SipOutboundTrunkInfo : Type 0 where
  pub sip_trunk_id : String
  pub name : String
  pub address : String
  pub transport : ℕ
  pub from_host : String
  pub numbers : List String
  pub auth_username : String
  pub auth_password : String
  pub media : Option SipMediaConfig

-- The three hashes of the store.
pub record SipStore : Type 0 where
  pub inbound : Map SipInboundTrunkInfo
  pub outbound : Map SipOutboundTrunkInfo
  pub rules : Map SipDispatchRuleInfo

pub data SipReply : Type 0 where
  inbound_trunks : List SipInboundTrunkInfo → SipReply
  outbound_trunks : List SipOutboundTrunkInfo → SipReply
  dispatch_rules : List SipDispatchRuleInfo → SipReply
  deleted_trunk : String → SipReply

pub data SipAnswer : Type 0 where
  answered : SipStore → SipReply → SipAnswer
  failed : TwirpError → SipAnswer

-- The `action` of an update.
pub data Action (R U : Type 0) : Type 0 where
  replace : R → Action R U
  change : U → Action R U
  missing_action : Action R U

unfoldable pub ensure_sip_admin : SipGrant → Bool
ensure_sip_admin grant = grant.admin

-- current.contains(v)
abbrev pub holds : String → List String → Bool
holds v vs = any_of (λ w. str_eq w v) vs

abbrev pub add_all : List String → List String → List String
add_all [] current = current
add_all (v ∷ vs) current = add_all vs (if holds v current then current else current ++ v ∷ [])

-- `retain` for each of the values.
abbrev pub remove_all : List String → List String → List String
remove_all [] current = current
remove_all (v ∷ vs) current = remove_all vs (select (λ w. not (str_eq w v)) current)

unfoldable pub apply_list_update : ListUpdate → List String → List String
apply_list_update u current =
    let kept = if u.clear then [] else current in
    let base = if is_empty_list u.set then kept else u.set in
    remove_all u.remove (add_all u.add base)

abbrev pub update_list : Option ListUpdate → List String → List String
update_list none current = current
update_list (some u) current = apply_list_update u current

abbrev pub or_kept : {A : Type 0} → Option A → A → A
or_kept none kept = kept
or_kept (some given) kept = given

-- The filter of the lists: by ids, else by the numbers or trunks that are asked for.
abbrev pub is_asked : List String → List String → String → List String → Bool
is_asked ids asked id own =
    if not (is_empty_list ids)
    then holds id ids
    else if not (is_empty_list asked) && not (is_empty_list own)
    then any_of (λ n. holds n asked) own
    else true
