-- ===== src/SipService/Updating.antt =====
-- crates/lk-server/src/services_sip.rs: what an update of a trunk leaves in the store.
use livekit_rs_voice.Base.{Bool, not, ◌&&◌, ◌||◌, List, Option, none, some, String, if◌then◌else◌}
use livekit_rs_voice.DispatchRules.{is_empty_list}
use livekit_rs_voice.SipService.{ListUpdate, holds}

-- What is in a list after the update it is given, if it is given one: what the update does not remove and
-- either adds or finds in the list that it sets, or in the list that was there unless it clears that.
abbrev pub holds_after : String → Option ListUpdate → List String → Bool
holds_after w none current = holds w current
holds_after w (some u) current =
    (holds w u.add
      || (if is_empty_list u.set then not u.clear && holds w current else holds w u.set))
    && not (holds w u.remove)
