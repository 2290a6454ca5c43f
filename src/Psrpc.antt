-- ===== src/Psrpc.antt =====
-- crates/lk-psrpc/src/lib.rs: the messages of a remote call, and the names of its channels. A text is
-- the list of its code points. Protobuf and the bus are left out: a payload that does not decode is no
-- message, and what is published is a result.
pub mod Names
pub mod Client
pub mod Server
pub mod Claims
pub mod Calls
pub mod Serving
use livekit_rs_voice.Base.{
  ℕ, ◌+◌, ◌/◌, ◌%◌, Bool, true, false, ◌&&◌, ◌||◌, not, List, [], ◌∷◌, ◌++◌, map, select, String,
  ltb, leb, ◌==◌, if◌then◌else◌,
}

pub record Request : Type 0 where
  pub request_id : String
  pub client_id : String
  pub expiry : ℕ
  pub raw_request : List ℕ

pub record ClaimRequest : Type 0 where
  pub request_id : String
  pub server_id : String

pub record ClaimResponse : Type 0 where
  pub request_id : String
  pub server_id : String

pub record Response : Type 0 where
  pub request_id : String
  pub server_id : String
  pub raw_response : List ℕ
  pub error : String
  pub code : String

-- c.is_ascii_alphanumeric() || c == '_'
abbrev pub is_kept : ℕ → Bool
is_kept c = (leb 48 c && leb c 57) || (leb 65 c && leb c 90) || (leb 97 c && leb c 122) || c == 95

-- The digit that {:x} prints for a number below 16.
unfoldable pub hex_digit : ℕ → ℕ
hex_digit d = if ltb d 10 then 48 + d else 87 + d

unfoldable pub hex4 : ℕ → List ℕ
unfolding hex_digit
hex4 n =
    hex_digit (n / 4096 % 16)
    ∷ hex_digit (n / 256 % 16)
    ∷ hex_digit (n / 16 % 16)
    ∷ hex_digit (n % 16)
    ∷ []

-- What `sanitize` pushes for a character: itself, "u+" and four digits, or "U+" and eight.
unfoldable pub escape : ℕ → List ℕ
unfolding hex4
escape c =
    if is_kept c
    then c ∷ []
    else if ltb c 0x10000
    then 117 ∷ 43 ∷ hex4 c
    else 85 ∷ 43 ∷ (hex4 (c / 0x10000) ++ hex4 (c % 0x10000))

unfoldable pub sanitize : List ℕ → List ℕ
unfolding escape
sanitize [] = []
sanitize (c ∷ s) = escape c ++ sanitize s

abbrev pub is_empty : List ℕ → Bool
is_empty [] = true
is_empty (c ∷ s) = false

-- join("|")
abbrev pub join : List (List ℕ) → List ℕ
join [] = []
join (part ∷ []) = part
join (part ∷ next ∷ parts) = part ++ 124 ∷ join (next ∷ parts)

unfoldable pub channel : List (List ℕ) → List ℕ
unfolding sanitize
channel parts = join (map sanitize (select (λ p. not (is_empty p)) parts))

-- "REQ", "RCLAIM", "RES" and "CLAIM".
abbrev pub req_part : List ℕ
req_part = 82 ∷ 69 ∷ 81 ∷ []

abbrev pub rclaim_part : List ℕ
rclaim_part = 82 ∷ 67 ∷ 76 ∷ 65 ∷ 73 ∷ 77 ∷ []

abbrev pub res_part : List ℕ
res_part = 82 ∷ 69 ∷ 83 ∷ []

abbrev pub claim_part : List ℕ
claim_part = 67 ∷ 76 ∷ 65 ∷ 73 ∷ 77 ∷ []

unfoldable pub rpc_channel : List ℕ → List ℕ → List ℕ → List ℕ
unfolding channel
rpc_channel service method topic = channel (service ∷ method ∷ topic ∷ req_part ∷ [])

unfoldable pub claim_response_channel : List ℕ → List ℕ → List ℕ → List ℕ
unfolding channel
claim_response_channel service method topic = channel (service ∷ method ∷ topic ∷ rclaim_part ∷ [])

unfoldable pub response_channel : List ℕ → List ℕ → List ℕ
unfolding channel
response_channel service client_id = channel (service ∷ client_id ∷ res_part ∷ [])

unfoldable pub claim_request_channel : List ℕ → List ℕ → List ℕ
unfolding channel
claim_request_channel service client_id = channel (service ∷ client_id ∷ claim_part ∷ [])
