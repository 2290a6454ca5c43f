-- ===== src/Cluster/Delivery.antt =====
-- crates/lk-server/src/cluster.rs: which requests the relay hands to the session at the room's node.
use livekit_rs_voice.Base.{
  ℕ, zero, suc, ◌≤◌, ◌≡◌, refl, Bool, true, false, ◌||◌, inl, inr, List, [], ◌∷◌, ◌++◌, Option,
  none, some, String, arith, if◌then◌else◌, length, append-nil, append_assoc, ap, ap₂, sym, ◌∙◌,
  subst,
}
use livekit_rs_voice.Cluster.{Fields, StreamId, after}
use livekit_rs_voice.Cluster.Relay.{
  Reply, RelayIoReader, Next, next_one, ended, waits, read_entries, after_reply, next_reply,
  next_request, collect, is_kind, decoded,
}

module _ {R : Type 0} (decode : String → Option R) where
  -- The requests in the entries of a reply, and whether a close is among them.
  abbrev pub requests_of : List (ℕ × Fields) → List R
  requests_of [] = []
  requests_of ((id, fields) ∷ entries) =
      (if is_kind "request" (collect fields) then decoded decode (collect fields) else [])
      ++ requests_of entries

  abbrev pub has_close : List (ℕ × Fields) → Bool
  has_close [] = false
  has_close ((id, fields) ∷ entries) = is_kind "close" (collect fields) || has_close entries

  -- The requests of the replies before the first that is an error, a timeout or has a close.
  abbrev pub delivered : List Reply → List R
  delivered [] = []
  delivered (inl e ∷ replies) = []
  delivered (inr none ∷ replies) = []
  delivered (inr (some entries) ∷ replies) =
      let rest = delivered replies in if has_close entries then [] else requests_of entries ++ rest

  abbrev pub with_next : Next R → List R → List R
  with_next (next_one req) rest = req ∷ rest
  with_next ended rest = []
  with_next waits rest = []

  -- The session: it asks for the next request until there is none, `n` times at most.
  abbrev pub session_requests : ℕ → List Reply → RelayIoReader R → List R
  session_requests zero replies reader = []
  session_requests (suc n) replies reader =
      let (next, reader', replies') = next_request decode replies reader in
      let rest = session_requests n replies' reader' in with_next next rest

  read_entries_lem :
      (entries : List (ℕ × Fields)) (reader : RelayIoReader R)
      → ((read_entries decode entries reader).0 ≡ has_close entries)
        × ((read_entries decode entries reader).1.pending ≡ reader.pending ++ requests_of entries)
  unfolding read_entries
  read_entries_lem [] reader = (refl, sym (append-nil reader.pending))
  read_entries_lem ((id, fields) ∷ entries) reader =
      let reqs =
        if is_kind "request" (collect fields) then decoded decode (collect fields) else [] in
      let (closes, pends) =
        read_entries_lem entries
          (record reader { last_id = after id; pending = reader.pending ++ reqs }) in
      (
        ap (λ b. is_kind "close" (collect fields) || b) closes,
        pends ∙ append_assoc reader.pending reqs (requests_of entries),
      )

  length-zero : (xs : List R) → length xs ≤ 0 → xs ≡ []
  length-zero [] h = refl
  length-zero (x ∷ xs) h = absurd (omega (arith, h))

  -- What a call of `next_request` makes of the requests that are due.
  abbrev pub Yields : Next R × RelayIoReader R × List Reply → List R → Type 0
  Yields (next_one req, reader, replies) due = due ≡ req ∷ (reader.pending ++ delivered replies)
  Yields (ended, reader, replies) due = due ≡ []
  Yields (waits, reader, replies) due = due ≡ []

  after_reply-Yields :
      (got_close : Bool) (last : StreamId) (pending due : List R) (replies : List Reply)
      (later : Next R × RelayIoReader R × List Reply)
      → (pending ≡ [] → Yields later (delivered replies))
      → due ≡ (if got_close then [] else pending ++ delivered replies)
      → Yields
          (after_reply got_close (record { last_id = last; pending = pending }) replies later)
          due
  unfolding after_reply
  after_reply-Yields true last pending due replies later h e = e
  after_reply-Yields false last [] due replies later h e = subst (Yields later) (sym e) (h refl)
  after_reply-Yields false last (req ∷ reqs) due replies later h e = e

  next_reply-Yields :
      (replies : List Reply) (reader : RelayIoReader R)
      → reader.pending ≡ []
      → Yields (next_reply decode replies reader) (delivered replies)
  unfolding next_reply
  next_reply-Yields [] reader none_left = refl
  next_reply-Yields (inl e ∷ replies) reader none_left = refl
  next_reply-Yields (inr none ∷ replies) reader none_left = refl
  next_reply-Yields (inr (some entries) ∷ replies) reader none_left =
      let (got_close, reader') = read_entries decode entries reader in
      let (closes, pends) = read_entries_lem entries reader in
      after_reply-Yields got_close reader'.last_id reader'.pending
        (delivered (inr (some entries) ∷ replies)) replies (next_reply decode replies reader')
        (next_reply-Yields replies reader')
        (ap₂ (λ b reqs. if b then [] else reqs ++ delivered replies) (sym closes)
          (ap (λ xs. xs ++ requests_of entries) (sym none_left) ∙ sym pends))

  next_request-Yields :
      (replies : List Reply) (last : StreamId) (pending : List R)
      → Yields
          (next_request decode replies (record { last_id = last; pending = pending }))
          (pending ++ delivered replies)
  unfolding next_request
  next_request-Yields replies last [] =
      next_reply-Yields replies (record { last_id = last; pending = [] }) refl
  next_request-Yields replies last (req ∷ reqs) = refl

  with_next-due :
      (n : ℕ) (due : List R) (next : Next R) (reader : RelayIoReader R) (replies : List Reply)
      → Yields (next, reader, replies) due
      → (length (reader.pending ++ delivered replies) ≤ n
          → session_requests n replies reader ≡ reader.pending ++ delivered replies)
      → length due ≤ suc n
      → with_next next (session_requests n replies reader) ≡ due
  with_next-due n due (next_one req) reader replies y ih h =
      ap (λ xs. req ∷ xs) (ih (ground (arith, y, h))) ∙ sym y
  with_next-due n due ended reader replies y ih h = sym y
  with_next-due n due waits reader replies y ih h = sym y

  -- Enough calls of `next_request` hand the session, in order, the requests that wait in the reader and
  -- then those of the replies before the first reply that is an error, that is empty for a timeout, or
  -- that has a close: the requests that come in one reply with a close are dropped.
  pub session_requests-delivered :
      (n : ℕ) (replies : List Reply) (reader : RelayIoReader R)
      → length (reader.pending ++ delivered replies) ≤ n
      → session_requests n replies reader ≡ reader.pending ++ delivered replies
  session_requests-delivered zero replies reader h = sym (length-zero _ h)
  session_requests-delivered (suc n) replies reader h =
      let (next, reader', replies') = next_request decode replies reader in
      with_next-due n (reader.pending ++ delivered replies) next reader' replies'
        (next_request-Yields replies reader.last_id reader.pending)
        (session_requests-delivered n replies' reader') h
