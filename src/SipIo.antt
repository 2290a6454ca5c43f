-- ===== src/SipIo.antt =====
-- crates/lk-server/src/ioservice.rs: the trunk and the room of an incoming SIP call. Of the messages of
-- protos/livekit_sip.proto, the fields that this reads or fills in; the choice of the rule is in
-- DispatchRules. The parsers of addresses and networks and the hash are parameters.
pub mod Numbers
pub mod Trunks
pub mod Evaluate
pub mod Accepting
pub mod EgressIo
use Prim.Native.Char.{Char, code}
use livekit_rs_voice.Base.{
  ℕ, ◌+◌, Bool, true, false, not, ◌&&◌, ◌||◌, List, [], ◌∷◌, Option, none, some, String, str_eq,
  leb, ◌==◌, if◌then◌else◌, is_some, any_of, select, unwrap_or,
}
use Prim.Native.String.{◌++◌ as text_append}
use livekit_rs_voice.DispatchRules.{is_empty_list}

pub record SipUri : Type 0 where
  pub user : String
  pub host : String

pub record SipCall : Type 0 where
  pub lk_call_id : String
  pub source_ip : String
  pub from : Option SipUri
  pub to : Option SipUri

pub record SipMediaConfig : Type 0 where
  pub only_listed_codecs : Bool
  pub codecs : List String
  pub encryption : Option ℕ
  pub media_timeout : Option ℕ

pub record SipInboundTrunkInfo : Type 0 where
  pub sip_trunk_id : String
  pub numbers : List String
  pub allowed_numbers : List String
  pub allowed_addresses : List String
  pub auth_username : String
  pub auth_password : String
  pub krisp_enabled : Bool
  pub media : Option SipMediaConfig
  pub media_encryption : ℕ

abbrev pub user_of : Option SipUri → String
user_of none = ""
user_of (some u) = u.user

abbrev pub host_of : Option SipUri → String
host_of none = ""
host_of (some u) = u.host

-- chars().all(test) and chars().filter(test).collect()
abbrev pub all_chars : (ℕ → Bool) → String → Bool
all_chars test String.[] = true
all_chars test (String.◌∷◌ c s) = test (code c) && all_chars test s

abbrev pub keep_chars : (ℕ → Bool) → String → String
keep_chars test String.[] = String.[]
keep_chars test (String.◌∷◌ c s) =
    let rest = keep_chars test s in if test (code c) then String.◌∷◌ c rest else rest

abbrev pub any_char : (ℕ → Bool) → String → Bool
any_char test String.[] = false
any_char test (String.◌∷◌ c s) = test (code c) || any_char test s

abbrev pub is_digit : ℕ → Bool
is_digit c = leb 48 c && leb c 57

-- One of " -()".
abbrev pub is_filler : ℕ → Bool
is_filler c = c == 32 || c == 45 || c == 40 || c == 41

-- A digit, or one of "+- ()".
abbrev pub is_dialled : ℕ → Bool
is_dialled c = is_digit c || c == 43 || is_filler c

abbrev pub starts_with_plus : String → Bool
starts_with_plus String.[] = false
starts_with_plus (String.◌∷◌ c s) = code c == 43

abbrev pub with_plus : String → String
with_plus cleaned = if starts_with_plus cleaned then cleaned else text_append "+" cleaned

unfoldable pub normalize_number : String → String
normalize_number num =
    if str_eq num ""
    then ""
    else if not (all_chars is_dialled num)
    then num
    else with_plus (keep_chars (λ c. not (is_filler c)) num)

unfoldable pub match_numbers : String → List String → Bool
unfolding normalize_number
match_numbers num allowed =
    if is_empty_list allowed
    then true
    else any_of (λ a. str_eq num a || str_eq (normalize_number num) (normalize_number a)) allowed

-- mask.contains([..])
abbrev pub is_mask_stop : ℕ → Bool
is_mask_stop c =
    c == 40
    || c == 41
    || c == 43
    || c == 42
    || c == 59
    || c == 44
    || c == 32
    || c == 9
    || c == 10
    || c == 13

unfoldable pub is_valid_mask : (String → Bool) → String → Bool
is_valid_mask contains_scheme mask =
    if any_char is_mask_stop mask then false else not (contains_scheme mask)

pub data TrunkMatch : Type 0 where
  multiple_trunks multiple_defaults : TrunkMatch
  trunk : Option SipInboundTrunkInfo → TrunkMatch

-- The end of `match_trunk`, with what the loop has found.
abbrev pub choose_trunk : Option SipInboundTrunkInfo → Option SipInboundTrunkInfo → ℕ → TrunkMatch
choose_trunk (some s) default_trunk default_cnt = trunk (some s)
choose_trunk none default_trunk default_cnt =
    if leb 2 default_cnt then multiple_defaults else trunk default_trunk

abbrev pub is_match : TrunkMatch → Bool
is_match (trunk (some t)) = true
is_match (trunk none) = false
is_match multiple_trunks = false
is_match multiple_defaults = false

-- `parse_ip` is str::parse to an address, and `parse_net` to a network, which holds addresses.
pub record Addresses : Type 1 where
  pub Ip : Type 0
  pub parse_ip : String → Option Ip
  pub same_ip : Ip → Ip → Bool
  pub parse_net : String → Option (Ip → Bool)
  pub contains_scheme : String → Bool

module _ (net : Addresses) where
  open net use {Ip, parse_ip, same_ip, parse_net, contains_scheme}

  abbrev pub is_ip : Ip → Option Ip → Bool
  is_ip ip none = false
  is_ip ip (some e) = same_ip ip e

  abbrev pub in_net : Ip → Option (Ip → Bool) → Bool
  in_net ip none = false
  in_net ip (some holds) = holds ip

  unfoldable pub match_addr_mask : Ip → String → Bool
  match_addr_mask ip mask =
      if not (any_char (λ c. c == 47) mask)
      then is_ip ip (parse_ip mask)
      else in_net ip (parse_net mask)

  unfoldable pub match_addr_masks : String → String → List String → Bool
  unfolding match_addr_mask is_valid_mask
  match_addr_masks addr host masks = elim (parse_ip addr) [
    | none ↦ true
    | some ip ↦
        let valid = select (is_valid_mask contains_scheme) masks in
        if is_empty_list valid
        then true
        else any_of (λ m. str_eq m host || match_addr_mask ip m) valid
  ]

  -- The two guards of the loop.
  unfoldable pub admits : SipCall → SipInboundTrunkInfo → Bool
  unfolding match_numbers match_addr_masks
  admits call tr =
      match_numbers (user_of call.from) tr.allowed_numbers
      && match_addr_masks call.source_ip (host_of call.from) tr.allowed_addresses

  -- One of the numbers of the trunk is the one that was called.
  unfoldable pub has_number : SipCall → SipInboundTrunkInfo → Bool
  unfolding normalize_number
  has_number call tr =
      any_of
        (λ num.
          str_eq num (user_of call.to)
          || str_eq (normalize_number num) (normalize_number (user_of call.to)))
        tr.numbers

  -- The loop; an error ends it. The inner loop stops at the first number that fits.
  unfoldable pub match_trunk_loop :
      SipCall
      → List SipInboundTrunkInfo
      → Option SipInboundTrunkInfo
      → Option SipInboundTrunkInfo
      → ℕ
      → TrunkMatch
  unfolding admits has_number
  match_trunk_loop call [] selected default_trunk default_cnt =
      choose_trunk selected default_trunk default_cnt
  match_trunk_loop call (tr ∷ trunks) selected default_trunk default_cnt =
      let skipped = match_trunk_loop call trunks selected default_trunk default_cnt in
      let as_default = match_trunk_loop call trunks selected (some tr) (default_cnt + 1) in
      let as_selected = match_trunk_loop call trunks (some tr) default_trunk default_cnt in
      if not (admits call tr)
      then skipped
      else if is_empty_list tr.numbers
      then as_default
      else if not (has_number call tr)
      then skipped
      else if is_some selected
      then multiple_trunks
      else as_selected

  unfoldable pub match_trunk : List SipInboundTrunkInfo → SipCall → TrunkMatch
  unfolding match_trunk_loop
  match_trunk trunks call = match_trunk_loop call trunks none none 0

  -- The trunk that the request names, if it is there and fits, else one of all. `stored` are the
  -- trunks of the store, which may fail to be read; then the call fails.
  unfoldable pub match_trunk_for :
      (String → Option SipInboundTrunkInfo)
      → List SipInboundTrunkInfo
      → String
      → SipCall
      → TrunkMatch
  unfolding match_trunk
  match_trunk_for load stored trunk_id call =
      if str_eq trunk_id "" then match_trunk stored call else elim (load trunk_id) [
        | none ↦ match_trunk stored call
        | some t ↦
            if is_match (match_trunk (t ∷ []) call) then trunk (some t) else match_trunk stored call
      ]
