-- ===== src/DispatchRules.antt =====
-- crates/lk-server/src/ioservice.rs: which dispatch rule an incoming call follows. Of the messages of
-- protos/livekit_sip.proto, the fields that this choice reads.
pub mod Choosing
use Prim.Native.Nat.{Ordering}
use Prim.Native.String.{compare}
use livekit_rs_voice.Base.{
  ℕ, ◌+◌, Bool, true, false, not, ◌&&◌, ◌||◌, List, [], ◌∷◌, Option, none, some, String, str_eq,
  ltb, ◌==◌, if◌then◌else◌, is_some, any_of,
}

pub data DispatchRule : Type 0 where
  direct individual callee : String → String → DispatchRule

pub record SipDispatchRuleInfo : Type 0 where
  pub sip_dispatch_rule_id : String
  pub rule : Option DispatchRule
  pub trunk_ids : List String
  pub inbound_numbers : List String
  pub numbers : List String

pub record DispatchRequest : Type 0 where
  pub calling_number : String
  pub called_number : String
  pub pin : String
  pub no_pin : Bool

-- The room, or its prefix, and the pin. A rule without content is the error.
unfoldable pub get_pin_and_room : SipDispatchRuleInfo → Option (String × String)
get_pin_and_room info = elim info.rule [
  | none ↦ none
  | some (direct room pin) ↦ some (room, pin)
  | some (individual prefix pin) ↦ some (prefix, pin)
  | some (callee prefix pin) ↦ some (prefix, pin)
]

abbrev pub by_pin : String → ℕ → ℕ → ℕ
by_pin pin without with_pin = if str_eq pin "" then without else with_pin

abbrev pub is_empty_list : List String → Bool
is_empty_list [] = true
is_empty_list (x ∷ xs) = false

-- 1000 more for each list of numbers that is empty.
abbrev pub with_numbers : SipDispatchRuleInfo → ℕ → ℕ
with_numbers info priority =
    priority
    + (if is_empty_list info.inbound_numbers then 1000 else 0)
    + (if is_empty_list info.numbers then 1000 else 0)

-- i32::MAX stands for a rule without content.
unfoldable pub dispatch_rule_priority : SipDispatchRuleInfo → ℕ
dispatch_rule_priority info = elim info.rule [
  | none ↦ 2147483647
  | some (direct room pin) ↦ with_numbers info (by_pin pin 100 0)
  | some (individual prefix pin) ↦ with_numbers info (by_pin pin 101 1)
  | some (callee prefix pin) ↦ with_numbers info (by_pin pin 102 2)
]

abbrev pub is_less : Ordering → Bool
is_less Ordering.lt = true
is_less Ordering.eq = false
is_less Ordering.gt = false

abbrev pub room_of : Option (String × String) → String
room_of none = ""
room_of (some (room, pin)) = room

unfoldable pub has_higher_priority : SipDispatchRuleInfo → SipDispatchRuleInfo → Bool
unfolding get_pin_and_room dispatch_rule_priority
has_higher_priority r1 r2 =
    if not (dispatch_rule_priority r1 == dispatch_rule_priority r2)
    then ltb (dispatch_rule_priority r1) (dispatch_rule_priority r2)
    else is_less (compare (room_of (get_pin_and_room r1)) (room_of (get_pin_and_room r2)))

abbrev pub contains : String → List String → Bool
contains x xs = any_of (λ y. str_eq y x) xs

abbrev pub pin_fits : Bool → String → Option (String × String) → Bool
pin_fits no_pin sent_pin none = false
pin_fits no_pin sent_pin (some (room, rule_pin)) =
    if no_pin
    then str_eq rule_pin ""
    else str_eq sent_pin "" || (not (str_eq rule_pin "") && str_eq sent_pin rule_pin)

-- The guards of the loop, before it looks at trunks.
unfoldable pub fits : DispatchRequest → SipDispatchRuleInfo → Bool
unfolding get_pin_and_room
fits req info =
    (is_empty_list info.inbound_numbers || contains req.calling_number info.inbound_numbers)
    && (is_empty_list info.numbers || contains req.called_number info.numbers)
    && pin_fits req.no_pin req.pin (get_pin_and_room info)

abbrev pub is_of_trunk : Option String → SipDispatchRuleInfo → Bool
is_of_trunk none info = false
is_of_trunk (some trunk_id) info = contains trunk_id info.trunk_ids

-- What the loop carries; the trunk is known by its id.
pub record Matching : Type 0 where
  pub specific : Option SipDispatchRuleInfo
  pub specific_cnt : ℕ
  pub default_rule : Option SipDispatchRuleInfo
  pub default_cnt : ℕ

abbrev pub better : SipDispatchRuleInfo → Option SipDispatchRuleInfo → Option SipDispatchRuleInfo
better info none = some info
better info (some best) = if has_higher_priority info best then some info else some best

unfoldable pub match_one :
    Option String → DispatchRequest → SipDispatchRuleInfo → Matching → Matching
unfolding fits has_higher_priority
match_one trunk req info m =
    if not (fits req info)
    then m
    else if is_empty_list info.trunk_ids
    then record m { default_rule = better info m.default_rule; default_cnt = m.default_cnt + 1 }
    else if is_of_trunk trunk info
    then record m { specific = better info m.specific; specific_cnt = m.specific_cnt + 1 }
    else m

unfoldable pub match_loop :
    Option String → DispatchRequest → List SipDispatchRuleInfo → Matching → Matching
unfolding match_one
match_loop trunk req [] m = m
match_loop trunk req (info ∷ rules) m = match_loop trunk req rules (match_one trunk req info m)

abbrev pub or_else :
    Option SipDispatchRuleInfo → Option SipDispatchRuleInfo → Option SipDispatchRuleInfo
or_else none o = o
or_else (some r) o = some r

pub data Matched : Type 0 where
  no_dispatch_matched : Matched
  matched : Option SipDispatchRuleInfo → Matched

abbrev pub nothing_yet : Matching
nothing_yet = record { specific = none; specific_cnt = 0; default_rule = none; default_cnt = 0 }

unfoldable pub match_dispatch_rule :
    List SipDispatchRuleInfo → Option String → DispatchRequest → Matched
unfolding match_loop
match_dispatch_rule rules trunk req =
    let m = match_loop trunk req rules nothing_yet in
    if (m.specific_cnt == 0) && (m.default_cnt == 0)
    then no_dispatch_matched
    else matched (or_else m.specific m.default_rule)
