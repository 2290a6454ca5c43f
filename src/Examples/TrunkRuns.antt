-- ===== src/Examples/TrunkRuns.antt =====
-- Runs of the SIP service.
use livekit_rs_voice.Base.{
  ◌≡◌, true, false, not, ◌&&◌, ◌||◌, List, [], ◌∷◌, none, some, String, if◌then◌else◌,
}
use livekit_rs_voice.Auth.{SipGrant}
use livekit_rs_voice.DispatchRules.{is_empty_list}
use livekit_rs_voice.SipIo.{SipInboundTrunkInfo}
use livekit_rs_voice.SipService.{ListUpdate, SipStore, holds, apply_list_update}
use livekit_rs_voice.SipService.ListUpdates.{apply_list_update_lem}
use livekit_rs_voice.SipService.Trunks.{InboundUpdate}

abbrev admin : SipGrant
admin = record { admin = true; call = false }

abbrev trunk_with : String → List String → SipInboundTrunkInfo
trunk_with id numbers = record {
  sip_trunk_id = id;
  numbers = numbers;
  allowed_numbers = [];
  allowed_addresses = [];
  auth_username = "";
  auth_password = "";
  krisp_enabled = false;
  media = none;
  media_encryption = 0;
}

abbrev two_trunks : SipStore
two_trunks = record {
  inbound = ("ST_1", trunk_with "ST_1" ("+1" ∷ [])) ∷ ("ST_2", trunk_with "ST_2" ("+2" ∷ [])) ∷ [];
  outbound = [];
  rules = [];
}

-- One number comes, another goes.
abbrev moved : ListUpdate
moved = record { clear = false; set = []; add = "+3" ∷ []; remove = "+1" ∷ [] }

abbrev renumbered : InboundUpdate
renumbered = record {
  numbers = some moved;
  allowed_addresses = none;
  allowed_numbers = none;
  auth_username = none;
  auth_password = none;
  media = none;
}

apply_list_update_lem_example : holds "+3" (apply_list_update moved ("+1" ∷ [])) ≡ (
    (holds "+3" ("+3" ∷ [])
      || (if is_empty_list [] then not false && holds "+3" ("+1" ∷ []) else holds "+3" []))
    && not (holds "+3" ("+1" ∷ [])))
apply_list_update_lem_example = apply_list_update_lem moved ("+1" ∷ []) "+3"
