-- ===== src/Media.antt =====
-- crates/lk-server/src/media.rs: the media state that a participant carries. Peer connections, data
-- channels, local tracks and RTP senders are objects of the WebRTC library, known by number.
pub mod RtpStats
pub mod Streams
use livekit_rs_voice.Base.{ℕ, Option, none, [], Map}

-- The part of a `Forwarder` that signaling changes: who receives the track.
pub record Forwarder : Type 0 where
  pub subscribers : Map ℕ

pub record ParticipantMedia : Type 0 where
  pub publisher : Option ℕ
  pub subscriber : Option ℕ
  pub forwarders : Map Forwarder
  pub subscriber_tracks : Map ℕ
  pub subscriber_senders : Map ℕ
  pub reliable : Option ℕ
  pub lossy : Option ℕ

-- ParticipantMedia::default()
abbrev pub no_media : ParticipantMedia
no_media = record {
  publisher = none;
  subscriber = none;
  forwarders = [];
  subscriber_tracks = [];
  subscriber_senders = [];
  reliable = none;
  lossy = none;
}
