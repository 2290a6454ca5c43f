-- ===== src/SipService/Trunks.antt =====
-- crates/lk-server/src/services_sip.rs: the calls that keep trunks. A trunk's name, metadata, realm and
-- country are left out.
use livekit_rs_voice.Base.{
  ℕ, not, List, [], ◌∷◌, Option, none, some, String, str_eq, if◌then◌else◌, select, get, insert,
  remove, values,
}
use livekit_rs_voice.Auth.{SipGrant}
use livekit_rs_voice.SipIo.{SipInboundTrunkInfo, SipMediaConfig}
use livekit_rs_voice.RoomService.{unauthenticated, invalid_argument, not_found}
use livekit_rs_voice.SipService.{
  ListUpdate, SipOutboundTrunkInfo, SipStore, SipAnswer, answered, failed, inbound_trunks,
  outbound_trunks, deleted_trunk, Action, replace, change, missing_action, ensure_sip_admin,
  update_list, or_kept, is_asked,
}

pub record InboundUpdate : Type 0 where
  pub numbers : Option ListUpdate
  pub allowed_addresses : Option ListUpdate
  pub allowed_numbers : Option ListUpdate
  pub auth_username : Option String
  pub auth_password : Option String
  pub media : Option SipMediaConfig

pub record OutboundUpdate : Type 0 where
  pub address : Option String
  pub transport : Option ℕ
  pub from_host : Option String
  pub numbers : Option ListUpdate
  pub auth_username : Option String
  pub auth_password : Option String
  pub name : Option String
  pub media : Option SipMediaConfig

abbrev pub or_media : Option SipMediaConfig → Option SipMediaConfig → Option SipMediaConfig
or_media none kept = kept
or_media (some given) kept = some given

-- `store_sip_inbound_trunk` and `store_sip_outbound_trunk`.
abbrev pub store_inbound : SipInboundTrunkInfo → SipStore → SipStore
store_inbound t s = record s { inbound = insert t.sip_trunk_id t s.inbound }

abbrev pub store_outbound : SipOutboundTrunkInfo → SipStore → SipStore
store_outbound t s = record s { outbound = insert t.sip_trunk_id t s.outbound }

abbrev trunk_not_found : SipAnswer
trunk_not_found = failed (not_found "SIP trunk not found")

-- `id` is the id that is drawn.
unfoldable pub create_inbound_trunk : SipGrant → String → SipInboundTrunkInfo → SipStore → SipAnswer
unfolding ensure_sip_admin
create_inbound_trunk grant id t s =
    if not (ensure_sip_admin grant)
    then failed unauthenticated
    else if not (str_eq t.sip_trunk_id "")
    then failed (invalid_argument "trunk ID must be empty")
    else let made : SipInboundTrunkInfo = record t { sip_trunk_id = id } in
      answered (store_inbound made s) (inbound_trunks (made ∷ []))

abbrev pub got_inbound : SipStore → Option SipInboundTrunkInfo → SipAnswer
got_inbound s none = trunk_not_found
got_inbound s (some t) = answered s (inbound_trunks (t ∷ []))

unfoldable pub get_inbound_trunk : SipGrant → String → SipStore → SipAnswer
unfolding ensure_sip_admin
get_inbound_trunk grant id s =
    if not (ensure_sip_admin grant)
    then failed unauthenticated
    else got_inbound s (get id s.inbound)

-- The trunk that an action makes of the one that was stored.
unfoldable pub updated_inbound :
    Action SipInboundTrunkInfo InboundUpdate
    → String
    → SipInboundTrunkInfo
    → Option SipInboundTrunkInfo
updated_inbound (replace given) id t = some (record given { sip_trunk_id = id })
updated_inbound (change u) id t = some (record t {
  numbers = update_list u.numbers t.numbers;
  allowed_addresses = update_list u.allowed_addresses t.allowed_addresses;
  allowed_numbers = update_list u.allowed_numbers t.allowed_numbers;
  auth_username = or_kept u.auth_username t.auth_username;
  auth_password = or_kept u.auth_password t.auth_password;
  media = or_media u.media t.media;
})
updated_inbound missing_action id t = none

abbrev pub keep_inbound : SipStore → Option SipInboundTrunkInfo → SipAnswer
keep_inbound s none = failed (invalid_argument "missing action")
keep_inbound s (some t) = answered (store_inbound t s) (inbound_trunks (t ∷ []))

abbrev pub update_inbound_found :
    Action SipInboundTrunkInfo InboundUpdate
    → String
    → SipStore
    → Option SipInboundTrunkInfo
    → SipAnswer
update_inbound_found action id s none = trunk_not_found
update_inbound_found action id s (some t) = keep_inbound s (updated_inbound action id t)

unfoldable pub update_inbound_trunk :
    SipGrant → String → Action SipInboundTrunkInfo InboundUpdate → SipStore → SipAnswer
unfolding ensure_sip_admin updated_inbound
update_inbound_trunk grant id action s =
    if not (ensure_sip_admin grant)
    then failed unauthenticated
    else update_inbound_found action id s (get id s.inbound)

unfoldable pub list_inbound_trunks : SipGrant → List String → List String → SipStore → SipAnswer
unfolding ensure_sip_admin
list_inbound_trunks grant trunk_ids numbers s =
    if not (ensure_sip_admin grant)
    then failed unauthenticated
    else answered s (
        inbound_trunks
          (select (λ t. is_asked trunk_ids numbers t.sip_trunk_id t.numbers) (values s.inbound)))

-- `id` is the id that is drawn.
unfoldable pub create_outbound_trunk :
    SipGrant → String → SipOutboundTrunkInfo → SipStore → SipAnswer
unfolding ensure_sip_admin
create_outbound_trunk grant id t s =
    if not (ensure_sip_admin grant)
    then failed unauthenticated
    else if not (str_eq t.sip_trunk_id "")
    then failed (invalid_argument "trunk ID must be empty")
    else if str_eq t.address ""
    then failed (invalid_argument "trunk address is required")
    else let made : SipOutboundTrunkInfo = record t { sip_trunk_id = id } in
      answered (store_outbound made s) (outbound_trunks (made ∷ []))

abbrev pub got_outbound : SipStore → Option SipOutboundTrunkInfo → SipAnswer
got_outbound s none = trunk_not_found
got_outbound s (some t) = answered s (outbound_trunks (t ∷ []))

unfoldable pub get_outbound_trunk : SipGrant → String → SipStore → SipAnswer
unfolding ensure_sip_admin
get_outbound_trunk grant id s =
    if not (ensure_sip_admin grant)
    then failed unauthenticated
    else got_outbound s (get id s.outbound)

-- The trunk that an action makes of the one that was stored.
unfoldable pub updated_outbound :
    Action SipOutboundTrunkInfo OutboundUpdate
    → String
    → SipOutboundTrunkInfo
    → Option SipOutboundTrunkInfo
updated_outbound (replace given) id t = some (record given { sip_trunk_id = id })
updated_outbound (change u) id t = some (record t {
  address = or_kept u.address t.address;
  transport = or_kept u.transport t.transport;
  from_host = or_kept u.from_host t.from_host;
  numbers = update_list u.numbers t.numbers;
  auth_username = or_kept u.auth_username t.auth_username;
  auth_password = or_kept u.auth_password t.auth_password;
  name = or_kept u.name t.name;
  media = or_media u.media t.media;
})
updated_outbound missing_action id t = none

abbrev pub keep_outbound : SipStore → Option SipOutboundTrunkInfo → SipAnswer
keep_outbound s none = failed (invalid_argument "missing action")
keep_outbound s (some t) = answered (store_outbound t s) (outbound_trunks (t ∷ []))

abbrev pub update_outbound_found :
    Action SipOutboundTrunkInfo OutboundUpdate
    → String
    → SipStore
    → Option SipOutboundTrunkInfo
    → SipAnswer
update_outbound_found action id s none = trunk_not_found
update_outbound_found action id s (some t) = keep_outbound s (updated_outbound action id t)

unfoldable pub update_outbound_trunk :
    SipGrant → String → Action SipOutboundTrunkInfo OutboundUpdate → SipStore → SipAnswer
unfolding ensure_sip_admin updated_outbound
update_outbound_trunk grant id action s =
    if not (ensure_sip_admin grant)
    then failed unauthenticated
    else update_outbound_found action id s (get id s.outbound)

unfoldable pub list_outbound_trunks : SipGrant → List String → List String → SipStore → SipAnswer
unfolding ensure_sip_admin
list_outbound_trunks grant trunk_ids numbers s =
    if not (ensure_sip_admin grant)
    then failed unauthenticated
    else answered s (
        outbound_trunks
          (select (λ t. is_asked trunk_ids numbers t.sip_trunk_id t.numbers) (values s.outbound)))

-- A trunk of either kind; nothing is said if there is none.
unfoldable pub delete_sip_trunk : SipGrant → String → SipStore → SipAnswer
unfolding ensure_sip_admin
delete_sip_trunk grant id s =
    if not (ensure_sip_admin grant)
    then failed unauthenticated
    else if str_eq id ""
    then failed (invalid_argument "trunk ID is required")
    else answered (record s { inbound = remove id s.inbound; outbound = remove id s.outbound })
        (deleted_trunk id)
