-- ===== src/Room/Membership.antt =====
-- crates/lk-server/src/room.rs: who gets into a room, and what joining and leaving keep.
use livekit_rs_voice.Base.{
  if_cases, sym, ap, subst, ◌∙◌, first_of_list-values, ℕ, ◌≤◌, ◌<◌, not, ◌||◌, str_eq, ◌≡◌, ◌↔◌,
  ◌⊎◌, Bool, true, false, ◌&&◌, none, some, List, [], ◌∷◌, String, eq_iff, eq_refl, arith,
  if◌then◌else◌, length, select, any_of, first_of_list, get, Distinct, get-insert, get-remove,
  insert-Distinct, remove-Distinct, any_of-values-get, length-select-insert-le,
  length-select-remove-le, remove-insert_new,
}
use livekit_rs_voice.Core.{is_dependent}
use livekit_rs_voice.Participant.{Participant, attach_room}
use livekit_rs_voice.Room.{
  Room, counts, everyone, has_identity, is_full, admit, join, remove_participant, get_participant,
  get_participant_by_identity,
}

pub first-any {ℓ} :
    {A : Type ℓ} (test : A → Bool) (xs : List A)
    → (any_of test xs ≡ false) ↔ (first_of_list test xs ≡ none)
first-any test [] = ground arith
first-any test (x ∷ xs) = ground (arith, first-any test xs)

-- A join succeeds exactly when the room is open, has room for the participant or does not count it,
-- and holds nobody with its identity; if it fails the room is as before.
pub join_iff :
    (now : ℕ) (p : Participant) (r : Room)
    → (((join now p r).1 ≡ true) ↔ (
        (r.closed ≡ false)
        × ((is_dependent p.kind ≡ true) ⊎ (is_full r ≡ false))
        × (get_participant_by_identity p.identity r ≡ none)))
      × ((join now p r).0 ≡ (if (join now p r).1 then admit now p r else r))
unfolding join get_participant_by_identity
join_iff now p r = ground (arith, first-any (has_identity p.identity) (everyone r))

-- How many participants count toward the capacity.
abbrev pub headcount : Room → ℕ
headcount r = length (select counts (everyone r))

-- A capacity of 0 is none.
abbrev pub FitsCapacity : Room → Type 0
FitsCapacity r = (r.max_participants ≡ 0) ⊎ (headcount r ≤ r.max_participants)

-- The room admits one more who counts: it has no capacity, or fewer are in it.
abbrev pub HasRoom : Room → Type 0
HasRoom r = (r.max_participants ≡ 0) ⊎ (headcount r < r.max_participants)

is_full_iff : (r : Room) → (is_full r ≡ false) ↔ HasRoom r
unfolding is_full
is_full_iff r = ground arith

-- A join succeeds exactly when the room is open, the participant is a dependent or fewer than its
-- capacity count toward it, unless the capacity is 0, and nobody in it has the participant's identity.
-- Then the participant is in the room under its sid, attached to it, with everybody else as before, and
-- one who counts has joined the room and stops its empty timer; a join that fails changes nothing.
pub join_lem :
    (now : ℕ) (s : String) (p : Participant) (r : Room)
    → let (r', joined) = join now p r in
      ((joined ≡ true) ↔ (
        (r.closed ≡ false)
        × ((is_dependent p.kind ≡ true)
            ⊎ (r.max_participants ≡ 0)
            ⊎ (length (select (λ q. not (is_dependent q.kind)) (everyone r)) < r.max_participants))
        × (any_of (λ q. str_eq q.identity p.identity) (everyone r) ≡ false)))
      × (get s r'.participants ≡ (
          if joined && str_eq p.sid s
          then some (record p { room = some r.name })
          else get s r.participants))
      × (r'.ever_joined ≡ (r.ever_joined || (joined && not (is_dependent p.kind))))
      × (r'.empty_since ≡ (if joined && not (is_dependent p.kind) then none else r.empty_since))
      × (r'.closed ≡ r.closed)
      × ((if joined then r' else r) ≡ r')
unfolding join admit attach_room
join_lem now s p r =
    ground (arith, is_full_iff r, get-insert p.sid s (attach_room r.name p) r.participants)

-- Joining never brings a room over its capacity.
pub join-FitsCapacity :
    (now : ℕ) (p : Participant) (r : Room) → FitsCapacity r → FitsCapacity (join now p r).0
unfolding join admit is_full attach_room
join-FitsCapacity now p r fits =
    ground (arith, length-select-insert-le counts p.sid (attach_room r.name p) r.participants)

-- Nor does leaving.
pub remove_participant-FitsCapacity :
    (now : ℕ) (sid : String) (r : Room)
    → FitsCapacity r
    → FitsCapacity (remove_participant now sid r).0
unfolding remove_participant
remove_participant-FitsCapacity now sid r fits =
    ground (arith, length-select-remove-le counts sid r.participants)

-- Participants are filed under their sids, are attached to the room, and have identities of their
-- own.
pub record IsConsistent (r : Room) : Type 0 where
  pub distinct : Distinct r.participants
  pub keyed : (s : String) (p : Participant) → get s r.participants ≡ some p → p.sid ≡ s
  pub attached :
      (s : String) (p : Participant) → get s r.participants ≡ some p → p.room ≡ some r.name
  pub unique :
      (s s' : String) (p p' : Participant)
      → get s r.participants ≡ some p
      → get s' r.participants ≡ some p'
      → p.identity ≡ p'.identity
      → s ≡ s'

admit-IsConsistent :
    (now : ℕ) (p : Participant) (r : Room)
    → any_of (has_identity p.identity) (everyone r) ≡ false
    → IsConsistent r
    → IsConsistent (admit now p r)
unfolding admit attach_room
admit-IsConsistent now p r free ok = record {
  distinct =
      ground (arith, insert-Distinct p.sid (attach_room r.name p) r.participants ok.distinct);
  keyed = λ s q h. ground (
    arith,
    h,
    eq_iff p.sid s,
    get-insert p.sid s (attach_room r.name p) r.participants,
    ok.keyed s q,
  );
  attached = λ s q h. ground (
    arith,
    h,
    eq_iff p.sid s,
    get-insert p.sid s (attach_room r.name p) r.participants,
    ok.attached s q,
  );
  unique = λ s s' q q' h h' e. ground (
    arith,
    h,
    h',
    e,
    eq_iff p.sid s,
    eq_iff p.sid s',
    eq_iff q.identity p.identity,
    eq_iff q'.identity p.identity,
    get-insert p.sid s (attach_room r.name p) r.participants,
    get-insert p.sid s' (attach_room r.name p) r.participants,
    any_of-values-get (has_identity p.identity) s q r.participants,
    any_of-values-get (has_identity p.identity) s' q' r.participants,
    ok.unique s s' q q',
  );
}

join_cases {ℓ} :
    (P : Room → Type ℓ) (now : ℕ) (p : Participant) (r : Room)
    → P r
    → (any_of (has_identity p.identity) (everyone r) ≡ false → P (admit now p r))
    → P (join now p r).0
unfolding join
join_cases P now p r same admitted =
    if_cases {A = Room × Bool} (λ z. P z.0) r.closed _ _ (λ _. same)
      λ _.
        if_cases {A = Room × Bool} (λ z. P z.0) (counts p && is_full r) _ _ (λ _. same)
          λ _.
            if_cases {A = Room × Bool} (λ z. P z.0) (any_of (has_identity p.identity) (everyone r))
              _ _ (λ _. same) admitted

-- Joining keeps a room consistent, whatever sid was drawn for the participant.
pub join-IsConsistent :
    (now : ℕ) (p : Participant) (r : Room) → IsConsistent r → IsConsistent (join now p r).0
join-IsConsistent now p r ok =
    join_cases IsConsistent now p r ok (λ free. admit-IsConsistent now p r free ok)

-- Leaving keeps it consistent too.
pub remove_participant-IsConsistent :
    (now : ℕ) (sid : String) (r : Room)
    → IsConsistent r
    → IsConsistent (remove_participant now sid r).0
unfolding remove_participant
remove_participant-IsConsistent now sid r ok = record {
  distinct = ground (arith, remove-Distinct sid r.participants ok.distinct);
  keyed = λ s q h. ground (arith, h, get-remove sid s r.participants, ok.keyed s q);
  attached = λ s q h. ground (arith, h, get-remove sid s r.participants, ok.attached s q);
  unique = λ s s' q q' h h' e. ground (
    arith,
    h,
    h',
    get-remove sid s r.participants,
    get-remove sid s' r.participants,
    ok.unique s s' q q' (ground (arith, h, get-remove sid s r.participants))
        (ground (arith, h', get-remove sid s' r.participants)) e,
  );
}

-- In a consistent room the search by identity and the search by sid find the same participant: the
-- one found by its identity stands under its own sid, and nobody else has that identity.
pub get_participant_by_identity_lem :
    (identity : String) (r : Room) (p q : Participant) (s : String)
    → IsConsistent r
    → get_participant_by_identity identity r ≡ some p
    → get_participant s r ≡ some q
    → (get_participant p.sid r ≡ some p)
      × (p.identity ≡ identity)
      × ((q.identity ≡ identity) ↔ (q ≡ p))
unfolding get_participant_by_identity get_participant
get_participant_by_identity_lem identity r p q s ok found at_s =
    let (passes, s', at_s') =
      first_of_list-values (has_identity identity) r.participants p ok.distinct found in
    let own : p.sid ≡ s' = ok.keyed s' p at_s' in
    let named : p.identity ≡ identity = (eq_iff p.identity identity).0 passes in
    (
      subst (λ k. get k r.participants ≡ some p) (sym own) at_s',
      named,
      (
        λ e.
            let same : s ≡ s' = ok.unique s s' q p at_s at_s' (e ∙ sym named) in
            let at_both : get s r.participants ≡ some p =
              subst (λ k. get k r.participants ≡ some p) (sym same) at_s' in
            cc,
        λ e. ap (λ (x : Participant). x.identity) e ∙ named,
      ),
    )

-- To leave directly after joining, under a sid that nobody had, gives the participants back.
pub remove_participant-join :
    (now later : ℕ) (p : Participant) (r : Room)
    → get p.sid r.participants ≡ none
    → (join now p r).1 ≡ true
    → let (left, gone) = remove_participant later p.sid (join now p r).0 in
      (left.participants ≡ r.participants) × (gone ≡ some (attach_room r.name p))
unfolding remove_participant join admit
remove_participant-join now later p r fresh joined = ground (
  arith,
  eq_refl p.sid,
  get-insert p.sid p.sid (attach_room r.name p) r.participants,
  remove-insert_new p.sid (attach_room r.name p) r.participants,
)
