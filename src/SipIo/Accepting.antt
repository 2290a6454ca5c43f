-- ===== src/SipIo/Accepting.antt =====
-- crates/lk-server/src/ioservice.rs: which calls are accepted.
use livekit_rs_voice.Base.{
  ◌≡◌, refl, Bool, true, false, not, ◌&&◌, ◌||◌, Option, none, some, String, str_eq, eq_iff, arith,
  is_some, Map,
}
use livekit_rs_voice.DispatchRules.{SipDispatchRuleInfo, DispatchRequest, get_pin_and_room}
use livekit_rs_voice.SipIo.{SipCall, SipInboundTrunkInfo, user_of}
use livekit_rs_voice.SipIo.Evaluate.{
  RuleDetails, Evaluated, accepted, panics, request_pin, dropped, incorrect_pin, no_rule, conflict,
  caller_of, evaluate_dispatch_rule, accept, by_rule_pin, evaluate_as, Caller, Response,
}

abbrev pub is_accepted : Evaluated → Bool
is_accepted (accepted response) = true
is_accepted (request_pin t r) = false
is_accepted (dropped t) = false
is_accepted incorrect_pin = false
is_accepted no_rule = false
is_accepted panics = false
is_accepted conflict = false

abbrev pub asks_pin : Evaluated → Bool
asks_pin (accepted response) = false
asks_pin (request_pin t r) = true
asks_pin (dropped t) = false
asks_pin incorrect_pin = false
asks_pin no_rule = false
asks_pin panics = false
asks_pin conflict = false

-- The rule has content, and no pin or the one that was sent.
abbrev pub is_open_to : String → Option (String × String) → Bool
is_open_to sent_pin none = false
is_open_to sent_pin (some (room, rule_pin)) = str_eq rule_pin "" || str_eq rule_pin sent_pin

-- The rule has a pin, and none was sent.
abbrev pub wants_pin : String → Option (String × String) → Bool
wants_pin sent_pin none = false
wants_pin sent_pin (some (room, rule_pin)) = not (str_eq rule_pin "") && str_eq sent_pin ""

module _ (short_hash : String → String) (suffix : String)
    (rest : SipDispatchRuleInfo → RuleDetails) where
  by_rule_pin_lem :
      (rule_pin sent_pin trunk_id rule_id : String) (response : Response)
      → let out =
          by_rule_pin short_hash suffix rest rule_pin sent_pin
            (request_pin trunk_id rule_id)
            (accepted response) in
        (is_accepted out ≡ (str_eq rule_pin "" || str_eq rule_pin sent_pin))
        × (asks_pin out ≡ (not (str_eq rule_pin "") && str_eq sent_pin ""))
  by_rule_pin_lem rule_pin sent_pin trunk_id rule_id response =
      ground (arith, eq_iff rule_pin "", eq_iff sent_pin "", eq_iff rule_pin sent_pin)

  evaluate_as_lem :
      (caller : Option Caller) (content : Option (String × String))
      (sent_pin trunk_id rule_id : String) (response : Caller → Response)
      → let out =
          evaluate_as short_hash suffix rest caller content sent_pin
            (request_pin trunk_id rule_id)
            (λ c. accepted (response c)) in
        (is_accepted out ≡ (is_some caller && is_open_to sent_pin content))
        × (asks_pin out ≡ (is_some caller && wants_pin sent_pin content))
  evaluate_as_lem none content sent_pin trunk_id rule_id response = (refl, refl)
  evaluate_as_lem (some caller) none sent_pin trunk_id rule_id response = (refl, refl)
  evaluate_as_lem (some caller) (some (room, rule_pin)) sent_pin trunk_id rule_id response =
      by_rule_pin_lem rule_pin sent_pin trunk_id rule_id (response caller)

  -- A call that follows a rule gets into a room exactly when the rule has no pin or the one that the
  -- caller has sent; a caller who has sent none is asked for the pin of a rule that has one. Both need a
  -- caller's number that can be shown.
  pub evaluate_dispatch_rule_lem :
      (tr : Option SipInboundTrunkInfo) (rule : SipDispatchRuleInfo) (req : DispatchRequest)
      (extra : Map String) (call : SipCall) (trunk_id : String)
      → let shown = is_some (caller_of short_hash (rest rule) (user_of call.from)) in
        let out = evaluate_dispatch_rule short_hash suffix rest tr rule req extra call trunk_id in
        (is_accepted out ≡ (shown && is_open_to req.pin (get_pin_and_room rule)))
        × (asks_pin out ≡ (shown && wants_pin req.pin (get_pin_and_room rule)))
  unfolding evaluate_dispatch_rule
  evaluate_dispatch_rule_lem tr rule req extra call trunk_id =
      evaluate_as_lem (caller_of short_hash (rest rule) (user_of call.from)) (get_pin_and_room rule)
        req.pin trunk_id rule.sip_dispatch_rule_id
        (accept suffix tr rule (rest rule) extra call trunk_id)
