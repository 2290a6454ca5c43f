-- ===== src/SipIo/Evaluate.antt =====
-- crates/lk-server/src/ioservice.rs: what a call is answered by the rule that it follows. The random
-- suffix of a room and the hash of a number are parameters; headers and timeouts are left out.
use Prim.Native.String.{◌++◌ as text_append, len}
use text.Mathlib.Text.{get?}
use livekit_rs_voice.Base.{
  ℕ, ◌-◌, Bool, false, not, ◌&&◌, ◌||◌, List, [], ◌∷◌, Option, none, some, String, str_eq, leb,
  ◌==◌, if◌then◌else◌, is_some, Map, insert, unwrap_or,
}
use livekit_rs_voice.DispatchRules.{
  SipDispatchRuleInfo, DispatchRule, direct, individual, callee, DispatchRequest, get_pin_and_room,
  Matched, no_dispatch_matched, matched, match_dispatch_rule,
}
use livekit_rs_voice.SipIo.{
  SipMediaConfig, SipCall, SipInboundTrunkInfo, Addresses, user_of, host_of, TrunkMatch,
  multiple_trunks, multiple_defaults, trunk, match_trunk_for,
}

-- The fields of a rule that its choice does not read.
pub record RuleDetails : Type 0 where
  pub attributes : Map String
  pub metadata : String
  pub room_preset : String
  pub hide_phone_number : Bool
  pub no_randomness : Bool
  pub randomize : Bool
  pub krisp_enabled : Bool
  pub media : Option SipMediaConfig
  pub media_encryption : ℕ

abbrev pub or_option : {A : Type 0} → Option A → Option A → Option A
or_option none o = o
or_option (some a) o = some a

abbrev pub or_codecs : List String → List String → List String
or_codecs [] other = other
or_codecs (c ∷ codecs) other = c ∷ codecs

unfoldable pub upgrade_media : Option SipMediaConfig → ℕ → Option SipMediaConfig
upgrade_media none encryption = none
upgrade_media (some m) encryption =
    if not (is_some m.encryption) && not (encryption == 0)
    then some (record m { encryption = some encryption })
    else some m

unfoldable pub merge_media : Option SipMediaConfig → Option SipMediaConfig → Option SipMediaConfig
merge_media none other = other
merge_media (some b) none = some b
merge_media (some b) (some o) = some (record {
  only_listed_codecs = b.only_listed_codecs || o.only_listed_codecs;
  codecs = or_codecs b.codecs o.codecs;
  encryption = or_option b.encryption o.encryption;
  media_timeout = or_option b.media_timeout o.media_timeout;
})

abbrev pub insert_all : Map String → Map String → Map String
insert_all [] attrs = attrs
insert_all ((k, v) ∷ extra) attrs = insert_all extra (insert k v attrs)

-- The end of a number that is shown: one character of a short one, else four. `none` is the slice that
-- panics: it does not begin at a character.
unfoldable pub masked : String → Option String
masked from =
    let n = if leb (len from) 4 then 1 else 4 in
    if leb n (len from) then get? from (len from - n) (len from) else none

pub record Response : Type 0 where
  pub sip_trunk_id : String
  pub sip_dispatch_rule_id : String
  pub room_name : String
  pub participant_identity : String
  pub participant_name : String
  pub participant_metadata : String
  pub participant_attributes : Map String
  pub room_preset : String
  pub media_encryption : ℕ
  pub media : Option SipMediaConfig
  pub krisp : Bool

pub data Evaluated : Type 0 where
  accepted : Response → Evaluated
  request_pin : String → String → Evaluated
  dropped : String → Evaluated
  incorrect_pin no_rule panics conflict : Evaluated

-- Whom the call comes from, as the room sees it: number, name, identity.
pub record Caller : Type 0 where
  pub from : String
  pub name : String
  pub identity : String

abbrev pub caller_named : String → String → Caller
caller_named from identity = record {
  from = from;
  name = text_append "Phone " from;
  identity = text_append "sip_" identity;
}

unfoldable pub caller_of : (String → String) → RuleDetails → String → Option Caller
unfolding masked
caller_of short_hash details from =
    if details.hide_phone_number
    then elim (masked from) [ none ↦ none | some m ↦ some (caller_named m (short_hash from)) ]
    else some (caller_named from from)

unfoldable pub attributes_of : RuleDetails → Map String → SipCall → String → String → Map String
attributes_of details extra call trunk_id rule_id =
    let basic =
      insert "sip.trunkID" trunk_id
        (insert "sip.callID" call.lk_call_id (insert_all extra details.attributes)) in
    let numbers =
      if details.hide_phone_number
      then basic
      else insert "sip.trunkPhoneNumber" (user_of call.to) (
          insert "sip.hostname" (host_of call.from)
            (insert "sip.phoneNumber" (user_of call.from) basic)) in
    insert "sip.ruleID" rule_id numbers

abbrev pub prefixed : String → String → String
prefixed prefix name = if str_eq prefix "" then name else text_append prefix (text_append "_" name)

abbrev pub suffixed : Bool → String → String → String
suffixed random suffix name = if random then text_append name (text_append "_" suffix) else name

-- `suffix` is the id that is drawn.
unfoldable pub room_for : String → RuleDetails → Option DispatchRule → String → String → String
room_for suffix details none from to = ""
room_for suffix details (some (direct room pin)) from to = room
room_for suffix details (some (individual prefix pin)) from to =
    suffixed (not details.no_randomness) suffix (prefixed prefix from)
room_for suffix details (some (callee prefix pin)) from to =
    suffixed details.randomize suffix (prefixed prefix to)

unfoldable pub trunk_media : Option SipInboundTrunkInfo → Option SipMediaConfig
unfolding upgrade_media
trunk_media none = none
trunk_media (some t) = upgrade_media t.media t.media_encryption

abbrev pub encryption_of : Option SipMediaConfig → Option ℕ
encryption_of none = none
encryption_of (some m) = m.encryption

abbrev pub has_krisp : Option SipInboundTrunkInfo → Bool
has_krisp none = false
has_krisp (some t) = t.krisp_enabled

-- The call is accepted.
unfoldable pub accept :
    String
    → Option SipInboundTrunkInfo
    → SipDispatchRuleInfo
    → RuleDetails
    → Map String
    → SipCall
    → String
    → Caller
    → Response
unfolding trunk_media upgrade_media merge_media attributes_of room_for
accept suffix tr rule details extra call trunk_id caller =
    let media =
      merge_media (trunk_media tr) (upgrade_media details.media details.media_encryption) in
    record {
      sip_trunk_id = trunk_id;
      sip_dispatch_rule_id = rule.sip_dispatch_rule_id;
      room_name = room_for suffix details rule.rule caller.from (user_of call.to);
      participant_identity = caller.identity;
      participant_name = caller.name;
      participant_metadata = details.metadata;
      participant_attributes = attributes_of details extra call trunk_id rule.sip_dispatch_rule_id;
      room_preset = details.room_preset;
      media_encryption = unwrap_or (encryption_of media) 0;
      media = media;
      krisp = has_krisp tr || details.krisp_enabled;
    }

-- `rest` is what the message of a rule holds besides what its choice reads.
module _ (short_hash : String → String) (suffix : String)
    (rest : SipDispatchRuleInfo → RuleDetails) where
  -- The pin is asked for if the rule has one and the caller has sent none.
  abbrev pub by_rule_pin : String → String → Evaluated → Evaluated → Evaluated
  by_rule_pin rule_pin sent_pin asked taken =
      if str_eq rule_pin ""
      then taken
      else if str_eq sent_pin ""
      then asked
      else if not (str_eq rule_pin sent_pin)
      then incorrect_pin
      else taken

  -- What follows of the caller, who may not be shown, and of the rule, which may have no content.
  abbrev pub evaluate_as :
      Option Caller
      → Option (String × String)
      → String
      → Evaluated
      → (Caller → Evaluated)
      → Evaluated
  evaluate_as none content sent_pin asked taken = panics
  evaluate_as (some caller) none sent_pin asked taken = no_rule
  evaluate_as (some caller) (some (room, rule_pin)) sent_pin asked taken =
      by_rule_pin rule_pin sent_pin asked (taken caller)

  unfoldable pub evaluate_dispatch_rule :
      Option SipInboundTrunkInfo
      → SipDispatchRuleInfo
      → DispatchRequest
      → Map String
      → SipCall
      → String
      → Evaluated
  unfolding caller_of get_pin_and_room accept
  evaluate_dispatch_rule tr rule req extra call trunk_id =
      evaluate_as (caller_of short_hash (rest rule) (user_of call.from)) (get_pin_and_room rule)
        req.pin (request_pin trunk_id rule.sip_dispatch_rule_id)
        (λ caller. accepted (accept suffix tr rule (rest rule) extra call trunk_id caller))

  abbrev pub id_of : Option SipInboundTrunkInfo → Option String
  id_of none = none
  id_of (some t) = some t.sip_trunk_id

  abbrev pub evaluate_matched :
      Option SipInboundTrunkInfo → DispatchRequest → Map String → SipCall → Matched → Evaluated
  evaluate_matched tr req extra call no_dispatch_matched = dropped (unwrap_or (id_of tr) "")
  evaluate_matched tr req extra call (matched none) = dropped (unwrap_or (id_of tr) "")
  evaluate_matched tr req extra call (matched (some rule)) =
      evaluate_dispatch_rule tr rule req extra call (unwrap_or (id_of tr) "")

  abbrev pub evaluate_for_trunk :
      List SipDispatchRuleInfo → DispatchRequest → Map String → SipCall → TrunkMatch → Evaluated
  evaluate_for_trunk rules req extra call multiple_trunks = conflict
  evaluate_for_trunk rules req extra call multiple_defaults = conflict
  evaluate_for_trunk rules req extra call (trunk tr) =
      evaluate_matched tr req extra call (match_dispatch_rule rules (id_of tr) req)

  -- The trunks and the rules are those of the store.
  unfoldable pub evaluate_sip_dispatch_rules :
      Addresses
      → (String → Option SipInboundTrunkInfo)
      → List SipInboundTrunkInfo
      → List SipDispatchRuleInfo
      → String
      → DispatchRequest
      → Map String
      → SipCall
      → Evaluated
  unfolding match_trunk_for evaluate_dispatch_rule match_dispatch_rule
  evaluate_sip_dispatch_rules net load trunks rules trunk_id req extra call =
      evaluate_for_trunk rules req extra call (match_trunk_for net load trunks trunk_id call)
