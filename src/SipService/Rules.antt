-- ===== src/SipService/Rules.antt =====
-- crates/lk-server/src/services_sip.rs: the calls that keep dispatch rules. A rule's name, metadata,
-- attributes and media are left out.
use livekit_rs_voice.Base.{
  not, List, [], ◌∷◌, Option, none, some, String, str_eq, if◌then◌else◌, is_some, select, get,
  insert, remove, values,
}
use livekit_rs_voice.Auth.{SipGrant}
use livekit_rs_voice.DispatchRules.{DispatchRule, SipDispatchRuleInfo}
use livekit_rs_voice.RoomService.{unauthenticated, invalid_argument, not_found}
use livekit_rs_voice.SipService.{
  ListUpdate, SipStore, SipAnswer, answered, failed, dispatch_rules, Action, replace, change,
  missing_action, ensure_sip_admin, update_list, is_asked,
}

pub record RuleUpdate : Type 0 where
  pub trunk_ids : Option ListUpdate
  pub rule : Option DispatchRule

abbrev pub or_rule : Option DispatchRule → Option DispatchRule → Option DispatchRule
or_rule none kept = kept
or_rule (some given) kept = some given

-- `store_sip_dispatch_rule`.
abbrev pub store_rule : SipDispatchRuleInfo → SipStore → SipStore
store_rule r s = record s { rules = insert r.sip_dispatch_rule_id r s.rules }

-- `info` is what `dispatch_rule_info` makes of the request, and `id` the id that is drawn.
unfoldable pub create_dispatch_rule : SipGrant → String → SipDispatchRuleInfo → SipStore → SipAnswer
unfolding ensure_sip_admin
create_dispatch_rule grant id info s =
    if not (ensure_sip_admin grant)
    then failed unauthenticated
    else if not (str_eq info.sip_dispatch_rule_id "")
    then failed (invalid_argument "dispatch rule ID must be empty")
    else if not (is_some info.rule)
    then failed (invalid_argument "dispatch rule is required")
    else let made : SipDispatchRuleInfo = record info { sip_dispatch_rule_id = id } in
      answered (store_rule made s) (dispatch_rules (made ∷ []))

unfoldable pub updated_rule :
    Action SipDispatchRuleInfo RuleUpdate
    → String
    → SipDispatchRuleInfo
    → Option SipDispatchRuleInfo
updated_rule (replace given) id r = some (record given { sip_dispatch_rule_id = id })
updated_rule (change u) id r =
    some
      (record r { trunk_ids = update_list u.trunk_ids r.trunk_ids; rule = or_rule u.rule r.rule })
updated_rule missing_action id r = none

abbrev pub keep_rule : SipStore → Option SipDispatchRuleInfo → SipAnswer
keep_rule s none = failed (invalid_argument "missing action")
keep_rule s (some r) = answered (store_rule r s) (dispatch_rules (r ∷ []))

abbrev rule_not_found : SipAnswer
rule_not_found = failed (not_found "dispatch rule not found")

abbrev pub update_rule_found :
    Action SipDispatchRuleInfo RuleUpdate
    → String
    → SipStore
    → Option SipDispatchRuleInfo
    → SipAnswer
update_rule_found action id s none = rule_not_found
update_rule_found action id s (some r) = keep_rule s (updated_rule action id r)

unfoldable pub update_dispatch_rule :
    SipGrant → String → Action SipDispatchRuleInfo RuleUpdate → SipStore → SipAnswer
unfolding ensure_sip_admin updated_rule
update_dispatch_rule grant id action s =
    if not (ensure_sip_admin grant)
    then failed unauthenticated
    else update_rule_found action id s (get id s.rules)

unfoldable pub list_dispatch_rules : SipGrant → List String → List String → SipStore → SipAnswer
unfolding ensure_sip_admin
list_dispatch_rules grant rule_ids trunk_ids s =
    if not (ensure_sip_admin grant)
    then failed unauthenticated
    else answered s (
        dispatch_rules (
          select (λ r. is_asked rule_ids trunk_ids r.sip_dispatch_rule_id r.trunk_ids)
            (values s.rules)))

abbrev pub delete_rule_found : String → SipStore → Option SipDispatchRuleInfo → SipAnswer
delete_rule_found id s none = rule_not_found
delete_rule_found id s (some r) =
    answered (record s { rules = remove id s.rules }) (dispatch_rules (r ∷ []))

unfoldable pub delete_dispatch_rule : SipGrant → String → SipStore → SipAnswer
unfolding ensure_sip_admin
delete_dispatch_rule grant id s =
    if not (ensure_sip_admin grant)
    then failed unauthenticated
    else if str_eq id ""
    then failed (invalid_argument "dispatch rule ID is required")
    else delete_rule_found id s (get id s.rules)
