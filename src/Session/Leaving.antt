-- ===== src/Session/Leaving.antt =====
-- crates/lk-server/src/signal.rs: what `end_participant` tells those who stay.
use livekit_rs_voice.Base.{ℕ, List, [], ◌∷◌, Option, none, some}
use livekit_rs_voice.Participant.{Participant}
use livekit_rs_voice.Channels.{Mpsc, SignalResponse}
use livekit_rs_voice.Room.{Room}

-- A response is handed to the channel of each who has one, in order.
abbrev pub hand : (mpsc : Mpsc) → Option ℕ → SignalResponse → mpsc.Channels → mpsc.Channels
hand mpsc none response channels = channels
hand mpsc (some tx) response channels = (mpsc.try_send tx response channels).0

abbrev pub hand_all :
    (mpsc : Mpsc) → SignalResponse → List Participant → mpsc.Channels → mpsc.Channels
hand_all mpsc response [] channels = channels
hand_all mpsc response (p ∷ ps) channels =
    hand_all mpsc response ps (hand mpsc p.tx response channels)
