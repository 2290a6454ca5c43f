-- ===== src/Core/Kinds.antt =====
-- crates/lk-server/src/core.rs: the wire numbers of participant kinds.
use livekit_rs_voice.Base.{ℕ, ◌≡◌, refl, ◌↔◌, ◌⊎◌, true, arith}
use livekit_rs_voice.Core.{ParticipantKind, standard, kind_to_proto, kind_from_proto, is_dependent}

pub kind_from_proto-kind_to_proto : (k : ParticipantKind) → kind_from_proto (kind_to_proto k) ≡ k
unfolding kind_from_proto kind_to_proto
kind_from_proto-kind_to_proto standard = refl
kind_from_proto-kind_to_proto _ = refl

-- A kind survives the wire, and of the numbers on the wire only 2 and 4 name a dependent kind, so
-- an unknown number counts toward the capacity of the room.
pub kind_wire :
    (k : ParticipantKind) (v : ℕ)
    → (kind_from_proto (kind_to_proto k) ≡ k)
      × ((is_dependent (kind_from_proto v) ≡ true) ↔ ((v ≡ 2) ⊎ (v ≡ 4)))
unfolding kind_from_proto is_dependent
kind_wire k v = (kind_from_proto-kind_to_proto k, ground arith)
