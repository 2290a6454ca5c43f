-- ===== src/Examples/DispatchRuns.antt =====
-- Tests and instances of the theorem on dispatch rules (crates/lk-server/src/ioservice.rs).
use livekit_rs_voice.Base.{◌≡◌, refl, false, List, [], ◌∷◌, some, String, select}
use livekit_rs_voice.DispatchRules.{
  SipDispatchRuleInfo, DispatchRule, direct, individual, DispatchRequest, matched,
  match_dispatch_rule, match_loop, match_one, fits, has_higher_priority, get_pin_and_room,
  dispatch_rule_priority,
}
use livekit_rs_voice.DispatchRules.Choosing.{
  is_specific, is_default, IsMatch, match_dispatch_rule_lem,
}

abbrev rule : String → DispatchRule → List String → SipDispatchRuleInfo
rule id content trunks = record {
  sip_dispatch_rule_id = id;
  rule = some content;
  trunk_ids = trunks;
  inbound_numbers = [];
  numbers = [];
}

abbrev pinned : SipDispatchRuleInfo
pinned = rule "SDR_3" (direct "room" "42") ("ST_1" ∷ [])

abbrev rules : List SipDispatchRuleInfo
rules =
    rule "SDR_1" (direct "lobby" "") []
    ∷ rule "SDR_2" (individual "call-" "") ("ST_1" ∷ [])
    ∷ pinned
    ∷ []

abbrev call : DispatchRequest
call = record { calling_number = "+1"; called_number = "+2"; pin = ""; no_pin = false }

match_dispatch_rule_lem_example :
    IsMatch
      (select (is_specific (some "ST_1") call) rules)
      (select (is_default call) rules)
      (match_dispatch_rule rules (some "ST_1") call)
match_dispatch_rule_lem_example = match_dispatch_rule_lem rules (some "ST_1") call

-- The rule with a pin comes first, so that the caller is asked for it.
pin_is_asked : match_dispatch_rule rules (some "ST_1") call ≡ matched (some pinned)
unfolding match_dispatch_rule match_loop match_one fits has_higher_priority get_pin_and_room
    dispatch_rule_priority
pin_is_asked = refl
