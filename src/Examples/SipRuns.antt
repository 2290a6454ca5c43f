-- ===== src/Examples/SipRuns.antt =====
-- Tests and instances of the theorems on incoming SIP calls and on the reports of recordings
-- (crates/lk-server/src/ioservice.rs).
use livekit_rs_voice.Base.{
  ℕ, ◌≡◌, ◌≤◌, refl, true, false, ◌&&◌, List, [], ◌∷◌, none, some, String, is_some, select,
}
use livekit_rs_voice.DispatchRules.{SipDispatchRuleInfo, direct, DispatchRequest, get_pin_and_room}
use livekit_rs_voice.SipIo.{SipCall, SipInboundTrunkInfo, Addresses, match_trunk, normalize_number}
use livekit_rs_voice.SipIo.Trunks.{is_specific_trunk, is_default_trunk, only_trunk, match_trunk_lem}
use livekit_rs_voice.SipIo.Evaluate.{RuleDetails, evaluate_dispatch_rule, caller_of, masked}
use livekit_rs_voice.SipIo.Accepting.{
  is_accepted, asks_pin, is_open_to, wants_pin, evaluate_dispatch_rule_lem,
}
use livekit_rs_voice.SipIo.EgressIo.{
  EgressInfo, EgressCall, create, update, handle_all, no_egress, fired, starts, ends_egress,
  handle_all-once,
}

-- Addresses that never parse.
abbrev no_addresses : Addresses
no_addresses = record {
  Ip = Unit;
  parse_ip = λ t. none;
  same_ip = λ a b. true;
  parse_net = λ t. none;
  contains_scheme = λ t. false;
}

abbrev call_to : String → String → SipCall
call_to from to = record {
  lk_call_id = "SCL_1";
  source_ip = "";
  from = some (record { user = from; host = "pbx" });
  to = some (record { user = to; host = "sip" });
}

abbrev trunk_for : String → List String → SipInboundTrunkInfo
trunk_for id numbers = record {
  sip_trunk_id = id;
  numbers = numbers;
  allowed_numbers = [];
  allowed_addresses = [];
  auth_username = "";
  auth_password = "";
  krisp_enabled = false;
  media = none;
  media_encryption = 0;
}

abbrev trunks : List SipInboundTrunkInfo
trunks = trunk_for "ST_1" [] ∷ trunk_for "ST_2" ("+1 (555) 123" ∷ []) ∷ []

match_trunk_lem_example :
    match_trunk no_addresses trunks (call_to "+2" "1555123")
    ≡ only_trunk
        (select (is_specific_trunk no_addresses (call_to "+2" "1555123")) trunks)
        (select (is_default_trunk no_addresses (call_to "+2" "1555123")) trunks)
match_trunk_lem_example = match_trunk_lem no_addresses (call_to "+2" "1555123") trunks

one_form : normalize_number "+1 (555) 123" ≡ normalize_number "1555123"
unfolding normalize_number
one_form = refl

abbrev rule : SipDispatchRuleInfo
rule = record {
  sip_dispatch_rule_id = "SDR_1";
  rule = some (direct "room" "42");
  trunk_ids = [];
  inbound_numbers = [];
  numbers = [];
}

abbrev hiding : SipDispatchRuleInfo → RuleDetails
hiding info = record {
  attributes = [];
  metadata = "";
  room_preset = "";
  hide_phone_number = true;
  no_randomness = false;
  randomize = false;
  krisp_enabled = false;
  media = none;
  media_encryption = 0;
}

abbrev asked : DispatchRequest
asked = record { calling_number = "+15550001"; called_number = "+2"; pin = "42"; no_pin = false }

evaluate_dispatch_rule_lem_example :
    let shown = is_some (caller_of (λ t. "ab12cd34") (hiding rule) "+15550001") in
    let out =
      evaluate_dispatch_rule
        (λ t. "ab12cd34")
        "xyz"
        hiding
        none
        rule
        asked
        []
        (call_to "+15550001" "+2")
        "" in
    (is_accepted out ≡ (shown && is_open_to "42" (get_pin_and_room rule)))
    × (asks_pin out ≡ (shown && wants_pin "42" (get_pin_and_room rule)))
evaluate_dispatch_rule_lem_example =
    evaluate_dispatch_rule_lem (λ t. "ab12cd34") "xyz" hiding none rule asked []
      (call_to "+15550001" "+2") ""

-- The last four of a longer number, and one of a short one.
shown_ends : (masked "+15550001" ≡ some "0001") × (masked "911" ≡ some "1")
unfolding masked
shown_ends = (refl, refl)

abbrev info_of : ℕ → EgressInfo
info_of status = record { egress_id = "EG_1"; status = status }

-- A create that is retried, and an end that is reported twice.
abbrev reports : List EgressCall
reports =
    create true (info_of 0)
    ∷ create true (info_of 0)
    ∷ update true (info_of 1)
    ∷ update true (info_of 3)
    ∷ update true (info_of 3)
    ∷ []

handle_all-once_example :
    let s = handle_all reports (no_egress []) in
    (fired (starts "EG_1") s ≤ 1) × (fired (ends_egress "EG_1") s ≤ 1)
handle_all-once_example = handle_all-once "EG_1" reports []
