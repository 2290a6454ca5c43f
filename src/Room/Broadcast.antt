-- ===== src/Room/Broadcast.antt =====
-- crates/lk-server/src/room.rs: the updates that a room sends to its participants.
use livekit_rs_voice.Base.{
  ℕ, ◌+◌, ◌≤◌, ◌≡◌, refl, ◌∙◌, Bool, true, false, not, ◌&&◌, ◌||◌, List, [], ◌∷◌, Option, none,
  some, String, str_eq, arith, ◌==◌, if◌then◌else◌, length, select, any_of, inl, inr, Option-cases,
}
use livekit_rs_voice.Proto.{ParticipantInfo, Permission}
use livekit_rs_voice.Participant.{Participant}
use livekit_rs_voice.Channels.{Mpsc, SignalResponse, update, room_update}
use livekit_rs_voice.Room.{Room, everyone, room_to_proto}

abbrev hides : Option Permission → Bool
hides none = false
hides (some p) = p.hidden

unfoldable pub is_hidden : ParticipantInfo → Bool
is_hidden i = hides i.permission

-- A set of sids, as a list without repetition.
abbrev pub holds_sid : String → List String → Bool
holds_sid sid sids = any_of (λ s. str_eq s sid) sids

abbrev pub add_sid : String → List String → List String
add_sid sid sids = if holds_sid sid sids then sids else sid ∷ sids

unfoldable pub hidden_sids : List ParticipantInfo → List String
unfolding is_hidden
hidden_sids [] = []
hidden_sids (i ∷ infos) =
    let rest = hidden_sids infos in if is_hidden i then add_sid i.sid rest else rest

unfoldable pub hidden_only : List ParticipantInfo → Bool
hidden_only infos =
    let sids = hidden_sids infos in not (length sids == 0) && length sids == length infos

abbrev pub is_not : Option String → String → Bool
is_not none sid = true
is_not (some except) sid = not (str_eq except sid)

-- The two filters on the participants of the room.
unfoldable pub update_targets : List ParticipantInfo → Option String → Room → List Participant
update_targets infos except r =
    select (λ p. not (hidden_only infos) || holds_sid p.sid (hidden_sids infos))
      (select (λ p. is_not except p.sid) (everyone r))

abbrev pub uses : ℕ → Option ℕ → Bool
uses c none = false
uses c (some tx) = tx == c

-- The participant sends on the channel `c`.
abbrev pub sends_on : ℕ → Participant → Bool
sends_on c p = uses c p.tx

module _ (mpsc : Mpsc) where
  open mpsc use {Channels, try_send, received, received-try_send}

  -- Participant::send_update
  unfoldable pub send_update : SignalResponse → Participant → Channels → Channels × Bool
  send_update response p channels = elim p.tx [
    | none ↦ (channels, false)
    | some tx ↦ try_send tx response channels
  ]

  unfoldable pub send_all : SignalResponse → List Participant → Channels → Channels
  unfolding send_update
  send_all response [] channels = channels
  send_all response (p ∷ ps) channels = send_all response ps (send_update response p channels).0

  unfoldable pub broadcast_participant_update :
      List ParticipantInfo → Option String → Room → Channels → Channels
  broadcast_participant_update infos except r channels =
      send_all (update infos) (update_targets infos except r) channels

  unfoldable pub broadcast_room_update : Room → Channels → Channels
  broadcast_room_update r channels = send_all (room_update (room_to_proto r)) (everyone r) channels

  send_update-received :
      (c : ℕ) (response : SignalResponse) (p : Participant) (channels : Channels)
      → sends_on c p ≡ false
      → received c (send_update response p channels).0 ≡ received c channels
  unfolding send_update
  send_update-received c response p channels h = elim (Option-cases p.tx) [
    | inl e ↦ rw (e, send_update) refl
    | inr (tx, e) ↦ rw (e, send_update) (ground (arith, received-try_send c tx response channels))
  ]

  send_all-received :
      (c : ℕ) (response : SignalResponse) (ps : List Participant) (channels : Channels)
      → any_of (sends_on c) ps ≡ false
      → received c (send_all response ps channels) ≡ received c channels
  unfolding send_all
  send_all-received c response [] channels h = refl
  send_all-received c response (p ∷ ps) channels h =
      send_all-received c response ps _ (ground arith)
      ∙ send_update-received c response p channels (ground arith)

any_of-select_le {ℓ} :
    {A : Type ℓ} (test keep : A → Bool) (xs : List A)
    → any_of test xs ≡ false
    → any_of test (select keep xs) ≡ false
any_of-select_le test keep [] h = refl
any_of-select_le test keep (x ∷ xs) h = ground (arith, any_of-select_le test keep xs)

pub select-true {ℓ} :
    {A : Type ℓ} (keep : A → Bool) (xs : List A) → ((x : A) → keep x ≡ true) → select keep xs ≡ xs
select-true keep [] h = refl
select-true keep (x ∷ xs) h = ground (arith, h x, select-true keep xs h)

any_of-filtered :
    (c : ℕ) (test : String → Bool) (keep : Participant → Bool) (xs : List Participant)
    → ((p : Participant) → keep p ≡ test p.sid)
    → any_of (λ p. test p.sid && sends_on c p) xs ≡ false
    → any_of (sends_on c) (select keep xs) ≡ false
any_of-filtered c test keep [] same h = refl
any_of-filtered c test keep (p ∷ ps) same h =
    ground (arith, same p, any_of-filtered c test keep ps same)

-- The update about one hidden participant leaves a channel as it was, unless it is one on which a
-- participant with that sid sends: nobody else hears of it.
pub broadcast_participant_update_hidden :
    (mpsc : Mpsc) (c : ℕ) (info : ParticipantInfo) (except : Option String) (r : Room)
    (channels : mpsc.Channels)
    → is_hidden info ≡ true
    → any_of (λ p. str_eq info.sid p.sid && sends_on c p) (everyone r) ≡ false
    → mpsc.received c (broadcast_participant_update mpsc (info ∷ []) except r channels)
      ≡ mpsc.received c channels
unfolding broadcast_participant_update update_targets hidden_only hidden_sids
broadcast_participant_update_hidden mpsc c info except r channels hidden others =
    send_all-received mpsc c (update (info ∷ [])) (update_targets (info ∷ []) except r) channels (
      any_of-filtered c (str_eq info.sid)
        (λ p. not (hidden_only (info ∷ [])) || holds_sid p.sid (hidden_sids (info ∷ [])))
        (select (λ p. is_not except p.sid) (everyone r)) (λ p. ground arith)
        (any_of-select_le (λ p. str_eq info.sid p.sid && sends_on c p) (λ p. is_not except p.sid)
          (everyone r) others))

-- A channel on which only participants with the excepted sid send is left as it was.
pub broadcast_participant_update_except :
    (mpsc : Mpsc) (c : ℕ) (infos : List ParticipantInfo) (except : String) (r : Room)
    (channels : mpsc.Channels)
    → any_of (λ p. not (str_eq except p.sid) && sends_on c p) (everyone r) ≡ false
    → mpsc.received c (broadcast_participant_update mpsc infos (some except) r channels)
      ≡ mpsc.received c channels
unfolding broadcast_participant_update update_targets
broadcast_participant_update_except mpsc c infos except r channels others =
    send_all-received mpsc c (update infos) _ channels (
      any_of-select_le (sends_on c)
        (λ p. not (hidden_only infos) || holds_sid p.sid (hidden_sids infos))
        (select (λ p. not (str_eq except p.sid)) (everyone r))
        (any_of-filtered c (λ sid. not (str_eq except sid)) _ (everyone r) (λ p. refl) others))

length-select-pos {ℓ} :
    {A : Type ℓ} (test : A → Bool) (xs : List A)
    → any_of test xs ≡ true
    → 1 ≤ length (select test xs)
length-select-pos test [] h = cc
length-select-pos test (x ∷ xs) h = ground (arith, length-select-pos test xs)

length-hidden_sids :
    (infos : List ParticipantInfo)
    → length (hidden_sids infos) + length (select (λ i. not (is_hidden i)) infos) ≤ length infos
unfolding hidden_sids
length-hidden_sids [] = omega arith
length-hidden_sids (i ∷ infos) = ground (arith, length-hidden_sids infos)

-- As soon as one info of an update is about a participant that is not hidden, the whole update, with
-- what it says of hidden participants, goes to everybody.
pub update_targets_mixed :
    (infos : List ParticipantInfo) (r : Room)
    → any_of (λ i. not (is_hidden i)) infos ≡ true
    → update_targets infos none r ≡ everyone r
unfolding update_targets hidden_only
update_targets_mixed infos r visible =
    let open_to_all : hidden_only infos ≡ false =
      ground (
        arith,
        length-hidden_sids infos,
        length-select-pos (λ i. not (is_hidden i)) infos visible,
      ) in
    select-true _ (select (λ p. true) (everyone r)) (λ p. rw open_to_all)
    ∙ select-true (λ p. true) (everyone r) (λ p. refl)
