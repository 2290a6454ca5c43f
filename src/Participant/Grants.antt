-- ===== src/Participant/Grants.antt =====
-- crates/lk-server/src/participant.rs and auth.rs: a token and the permission made from it agree.
use livekit_rs_voice.Base.{◌≤◌, ◌≡◌, refl, true, List, [], ◌∷◌, map, String, All, arith, ◌↔◌, ◌≢◌}
use livekit_rs_voice.Auth.{
  VerifiedToken, token_can_publish, token_can_subscribe, token_can_publish_data,
}
use livekit_rs_voice.Track.{TrackSource, source_to_proto, source_from_proto, source_from_str}
use livekit_rs_voice.Proto.{Permission}
use livekit_rs_voice.Participant.{Participant, permission_from_grant, update_permission}

source_to_proto-le : (s : TrackSource) → source_to_proto s ≤ 4
unfolding source_to_proto
source_to_proto-le s = ground arith

sources-le :
    (ss : List String)
    → All (λ n. n ≤ 4) (map (λ s. source_to_proto (source_from_proto (source_from_str s))) ss)
sources-le [] = tt
sources-le (s ∷ ss) = (source_to_proto-le (source_from_proto (source_from_str s)), sources-le ss)

-- The permission that a joining participant gets says of publishing, subscribing and data what the
-- token itself says, and each source it lists is a number of the enum.
pub permission_from_grant_lem :
    (t : VerifiedToken)
    → let p = permission_from_grant t.video in
      (p.can_publish ≡ token_can_publish t)
      × (p.can_subscribe ≡ token_can_subscribe t)
      × (p.can_publish_data ≡ token_can_publish_data t)
      × All (λ n. n ≤ 4) p.can_publish_sources
unfolding permission_from_grant token_can_publish token_can_subscribe token_can_publish_data
permission_from_grant_lem t = (refl, refl, refl, sources-le t.video.can_publish_sources)

-- A permission update leaves the participant with the given permission and returns true exactly when
-- it had another.
pub update_permission_lem :
    (q : Permission) (p : Participant)
    → let (p', changed) = update_permission q p in
      (p'.permission ≡ q) × ((changed ≡ true) ↔ (p.permission ≢ q))
unfolding update_permission
update_permission_lem q p = ground arith
