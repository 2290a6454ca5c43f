-- ===== src/Participant/Tracks.antt =====
-- crates/lk-server/src/participant.rs: the two maps by which a participant finds its tracks.
use livekit_rs_voice.Base.{
  ℕ, ◌≡◌, none, some, String, eq_iff, arith, get, insert, remove, get-insert, get-remove,
  Option-cases, inl, inr,
}
use livekit_rs_voice.Participant.{
  Participant, Heap, add_track, remove_track, get_track, get_track_by_cid,
}

-- Each track is filed under its own sid and its own cid, and in both maps.
pub record AreIndexed (heap : Heap) (p : Participant) : Type 0 where
  pub sid_of : (s : String) (t : ℕ) → get s p.tracks ≡ some t → (heap t).sid ≡ s
  pub cid_of : (c : String) (t : ℕ) → get c p.tracks_by_cid ≡ some t → (heap t).cid ≡ c
  pub has_cid :
      (s : String) (t : ℕ) → get s p.tracks ≡ some t → get (heap t).cid p.tracks_by_cid ≡ some t
  pub has_sid :
      (c : String) (t : ℕ) → get c p.tracks_by_cid ≡ some t → get (heap t).sid p.tracks ≡ some t

module _ (heap : Heap) (p : Participant) where
  -- A track whose sid and cid are both new keeps the maps in step.
  pub add_track-AreIndexed :
      (t : ℕ)
      → get (heap t).sid p.tracks ≡ none
      → get (heap t).cid p.tracks_by_cid ≡ none
      → AreIndexed heap p
      → AreIndexed heap (add_track heap t p)
  unfolding add_track
  add_track-AreIndexed t new_sid new_cid ok = record {
    sid_of = λ s u h.
        ground
          (arith, h, eq_iff (heap t).sid s, get-insert (heap t).sid s t p.tracks, ok.sid_of s u);
    cid_of = λ c u h. ground (
      arith,
      h,
      eq_iff (heap t).cid c,
      get-insert (heap t).cid c t p.tracks_by_cid,
      ok.cid_of c u,
    );
    has_cid = λ s u h. ground (
      arith,
      h,
      eq_iff (heap t).sid s,
      eq_iff (heap t).cid (heap u).cid,
      get-insert (heap t).sid s t p.tracks,
      get-insert (heap t).cid (heap u).cid t p.tracks_by_cid,
      ok.has_cid s u,
    );
    has_sid = λ c u h. ground (
      arith,
      h,
      eq_iff (heap t).cid c,
      eq_iff (heap t).sid (heap u).sid,
      get-insert (heap t).cid c t p.tracks_by_cid,
      get-insert (heap t).sid (heap u).sid t p.tracks,
      ok.has_sid c u,
    );
  }

  -- Two tracks of a participant whose maps are in step differ in sid exactly if in cid.
  same_track :
      (s s' : String) (t u : ℕ)
      → AreIndexed heap p
      → get s p.tracks ≡ some t
      → get s' p.tracks ≡ some u
      → (heap t).cid ≡ (heap u).cid
      → s ≡ s'
  same_track s s' t u ok h h' e =
      ground (arith, ok.has_cid s t h, ok.has_cid s' u h', ok.sid_of s t h, ok.sid_of s' u h')

  remove_found-AreIndexed :
      (sid : String) (t : ℕ)
      → get sid p.tracks ≡ some t
      → AreIndexed heap p
      → AreIndexed heap (record p {
        tracks = remove sid p.tracks;
        tracks_by_cid = remove (heap t).cid p.tracks_by_cid;
      })
  remove_found-AreIndexed sid t found ok = record {
    sid_of = λ s u h. ground (arith, h, get-remove sid s p.tracks, ok.sid_of s u);
    cid_of = λ c u h. ground (arith, h, get-remove (heap t).cid c p.tracks_by_cid, ok.cid_of c u);
    has_cid = λ s u h. ground (
      arith,
      h,
      eq_iff sid s,
      eq_iff (heap t).cid (heap u).cid,
      get-remove sid s p.tracks,
      get-remove (heap t).cid (heap u).cid p.tracks_by_cid,
      ok.has_cid s u,
      same_track sid s t u ok found,
    );
    has_sid = λ c u h. ground (
      arith,
      h,
      eq_iff (heap t).cid c,
      eq_iff sid (heap u).sid,
      get-remove sid (heap u).sid p.tracks,
      get-remove (heap t).cid c p.tracks_by_cid,
      ok.has_sid c u,
      ok.cid_of c u,
    );
  }

  remove_missing-AreIndexed :
      (sid : String)
      → get sid p.tracks ≡ none
      → AreIndexed heap p
      → AreIndexed heap (record p { tracks = remove sid p.tracks })
  remove_missing-AreIndexed sid missing ok = record {
    sid_of = λ s u h. ground (arith, h, get-remove sid s p.tracks, ok.sid_of s u);
    cid_of = λ c u h. ok.cid_of c u h;
    has_cid = λ s u h. ground (arith, h, get-remove sid s p.tracks, ok.has_cid s u);
    has_sid = λ c u h.
        ground
          (arith, h, eq_iff sid (heap u).sid, get-remove sid (heap u).sid p.tracks, ok.has_sid c u);
  }

  -- Removing by sid, whether or not there is such a track, keeps the two maps in step.
  pub remove_track-AreIndexed :
      (sid : String) → AreIndexed heap p → AreIndexed heap (remove_track heap sid p).0
  unfolding remove_track
  remove_track-AreIndexed sid ok = elim (Option-cases (get sid p.tracks)) [
    | inl missing ↦ rw (missing, remove_track) (remove_missing-AreIndexed sid missing ok)
    | inr (t, found) ↦ rw (found, remove_track) (remove_found-AreIndexed sid t found ok)
  ]

  -- A track that is added under a sid of its own but with a cid that another track has takes that
  -- cid over; when it is removed again, the older track is still listed and no cid finds it.
  pub remove_track-add_track_loses :
      (t u : ℕ)
      → get (heap t).sid p.tracks ≡ none
      → AreIndexed heap p
      → get (heap t).cid p.tracks_by_cid ≡ some u
      → let q = (remove_track heap (heap t).sid (add_track heap t p)).0 in
        (get_track (heap u).sid q ≡ some u) × (get_track_by_cid (heap u).cid q ≡ none)
  unfolding add_track remove_track get_track get_track_by_cid
  remove_track-add_track_loses t u fresh ok taken = ground (
    arith,
    eq_iff (heap t).sid (heap t).sid,
    eq_iff (heap t).sid (heap u).sid,
    eq_iff (heap t).cid (heap u).cid,
    get-insert (heap t).sid (heap t).sid t p.tracks,
    get-insert (heap t).sid (heap u).sid t p.tracks,
    get-remove (heap t).sid (heap u).sid (insert (heap t).sid t p.tracks),
    get-remove (heap t).cid (heap u).cid (insert (heap t).cid t p.tracks_by_cid),
    ok.has_sid (heap t).cid u taken,
    ok.cid_of (heap t).cid u taken,
  )
