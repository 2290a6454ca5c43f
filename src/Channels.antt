-- ===== src/Channels.antt =====
-- The responses that go to a client (protos/livekit_rtc.proto), and what crates/lk-server/src uses of
-- the bounded channels of `tokio::sync::mpsc` that carry them: the library is a parameter.
use livekit_rs_voice.Base.{ℕ, ◌≡◌, Bool, List, [], ◌∷◌, ◌++◌, String, ◌==◌, ◌&&◌, if◌then◌else◌}
use livekit_rs_voice.Track.{TrackInfo}
use livekit_rs_voice.Proto.{AddTrackRequest, ParticipantInfo, RoomInfo}

pub data SignalResponse : Type 0 where
  update : List ParticipantInfo → SignalResponse
  room_update : RoomInfo → SignalResponse
  leave : ℕ → SignalResponse
  mute : String → Bool → SignalResponse
  track_published : String → TrackInfo → SignalResponse
  track_unpublished : String → SignalResponse
  request_response : ℕ → AddTrackRequest → SignalResponse

-- The state of all channels, by number. `try_send` returns false on a full or closed channel; `send`
-- waits for room first, and returns false on a closed one. Both reach their own channel alone, and
-- what they accept comes last.
pub record Mpsc : Type 1 where
  pub Channels : Type 0
  pub received : ℕ → Channels → List SignalResponse
  pub try_send : ℕ → SignalResponse → Channels → Channels × Bool
  pub send : ℕ → SignalResponse → Channels → Channels × Bool
  pub received-try_send :
      (c tx : ℕ) (r : SignalResponse) (s : Channels)
      → received c (try_send tx r s).0
        ≡ (if tx == c && (try_send tx r s).1 then received c s ++ r ∷ [] else received c s)
  pub received-send :
      (c tx : ℕ) (r : SignalResponse) (s : Channels)
      → received c (send tx r s).0
        ≡ (if tx == c && (send tx r s).1 then received c s ++ r ∷ [] else received c s)
