-- ===== src/Egress/Recording.antt =====
-- crates/lk-egress/src/server.rs with crates/lk-server/src/ioservice.rs: a recording from its start to
-- its end, as the recorder and as the server see it.
use livekit_rs_voice.Base.{
  ℕ, ◌+◌, ◌≡◌, refl, ap, ◌∙◌, Bool, true, false, List, [], ◌∷◌, ◌++◌, append_assoc, none, some,
  String, str_eq, eq_iff, arith, any_of, get, get-insert, length-select-append, Bool-cases, inl,
  inr,
}
use livekit_rs_voice.SipIo.EgressIo.{
  EgressInfo, EgressCall, create, update, EgressIo, egress_started, egress_updated, egress_ended,
  fire, store_egress, handle_egress, handle_all, create_egress, update_egress, is_terminal, fired,
  starts, ends_egress,
}
use livekit_rs_voice.Egress.{EgressConfig, local}
use livekit_rs_voice.Egress.Specs.{RecSpec, wav}
use livekit_rs_voice.Egress.Recorder.{
  Handlers, StartRequest, Started, started, not_started, with_id, without_id, starting, active_info,
  finished_info, failed_info, accept_job, Checked, refuses, goes_on, check_start, after_check,
  start_egress, JobEnd, not_connected, fails_later, uploaded, run_one, run_job,
}

-- What a job has reported at its end.
abbrev pub job_reports : String → JobEnd → List EgressCall
job_reports id not_connected = create true (starting id) ∷ update true (failed_info id) ∷ []
job_reports id fails_later =
    create true (starting id) ∷ update true (active_info id) ∷ update true (failed_info id) ∷ []
job_reports id uploaded =
    create true (starting id) ∷ update true (active_info id) ∷ update true (finished_info id) ∷ []

-- The status that a job ends in.
abbrev pub end_status : JobEnd → ℕ
end_status not_connected = 4
end_status fails_later = 4
end_status uploaded = 3

abbrev started_io : String → EgressIo → EgressIo
started_io id io = fire (egress_started (starting id)) (store_egress (starting id) io)

abbrev active_io : String → EgressIo → EgressIo
active_io id io = fire (egress_updated (active_info id)) (store_egress (active_info id) io)

abbrev ended_io : EgressInfo → EgressIo → EgressIo
ended_io info io =
    fire (egress_ended info) (record (store_egress info io) { ended = info.egress_id ∷ io.ended })

abbrev server_after : String → JobEnd → EgressIo → EgressIo
server_after id not_connected io = ended_io (failed_info id) (started_io id io)
server_after id fails_later io = ended_io (failed_info id) (active_io id (started_io id io))
server_after id uploaded io = ended_io (finished_info id) (active_io id (started_io id io))

handle_all-append :
    (xs ys : List EgressCall) (io : EgressIo)
    → handle_all (xs ++ ys) io ≡ handle_all ys (handle_all xs io)
unfolding handle_all
handle_all-append [] ys io = refl
handle_all-append (x ∷ xs) ys io = handle_all-append xs ys (handle_egress x io).0

module _ (id : String) where
  starts_at :
      (io : EgressIo)
      → get id io.store ≡ none
      → (handle_egress (create true (starting id)) io).0 ≡ started_io id io
  unfolding handle_egress create_egress
  starts_at io absent = rw absent refl

  active_at :
      (io : EgressIo) → (handle_egress (update true (active_info id)) io).0 ≡ active_io id io
  unfolding handle_egress update_egress is_terminal
  active_at io = refl

  fails_at :
      (io : EgressIo)
      → any_of (λ i. str_eq i id) io.ended ≡ false
      → (handle_egress (update true (failed_info id)) io).0 ≡ ended_io (failed_info id) io
  unfolding handle_egress update_egress is_terminal
  fails_at io unended = rw unended refl

  finishes_at :
      (io : EgressIo)
      → any_of (λ i. str_eq i id) io.ended ≡ false
      → (handle_egress (update true (finished_info id)) io).0 ≡ ended_io (finished_info id) io
  unfolding handle_egress update_egress is_terminal
  finishes_at io unended = rw unended refl

  -- What the server is left with by the reports of a job.
  handle_all-job_reports :
      (end : JobEnd) (io : EgressIo)
      → get id io.store ≡ none
      → any_of (λ i. str_eq i id) io.ended ≡ false
      → handle_all (job_reports id end) io ≡ server_after id end io
  unfolding handle_all
  handle_all-job_reports not_connected io absent unended =
      ap (λ w. (handle_egress (update true (failed_info id)) w).0) (starts_at io absent)
      ∙ fails_at (started_io id io) unended
  handle_all-job_reports fails_later io absent unended =
      ap
        (λ w.
          (handle_egress (update true (failed_info id))
            (handle_egress (update true (active_info id)) w).0).0)
        (starts_at io absent)
      ∙ ap (λ w. (handle_egress (update true (failed_info id)) w).0) (active_at (started_io id io))
      ∙ fails_at (active_io id (started_io id io)) unended
  handle_all-job_reports uploaded io absent unended =
      ap
        (λ w.
          (handle_egress (update true (finished_info id))
            (handle_egress (update true (active_info id)) w).0).0)
        (starts_at io absent)
      ∙ ap (λ w. (handle_egress (update true (finished_info id)) w).0)
          (active_at (started_io id io))
      ∙ finishes_at (active_io id (started_io id io)) unended

  -- A report that has been stored is what the store holds.
  get-ended_io :
      (info : EgressInfo) (io : EgressIo) → get info.egress_id (ended_io info io).store ≡ some info
  get-ended_io info io = ground (
    arith,
    eq_iff info.egress_id info.egress_id,
    get-insert info.egress_id info.egress_id info io.store,
  )

  server_after-store :
      (end : JobEnd) (io : EgressIo)
      → get id (server_after id end io).store
        ≡ some (record { egress_id = id; status = end_status end })
  server_after-store not_connected io = get-ended_io (failed_info id) (started_io id io)
  server_after-store fails_later io =
      get-ended_io (failed_info id) (active_io id (started_io id io))
  server_after-store uploaded io = get-ended_io (finished_info id) (active_io id (started_io id io))

  started_io-fired :
      (io : EgressIo)
      → str_eq id id ≡ true
      → (fired (starts id) (started_io id io) ≡ fired (starts id) io + 1)
        × (fired (ends_egress id) (started_io id io) ≡ fired (ends_egress id) io)
  started_io-fired io is_id = ground (
    arith,
    is_id,
    length-select-append (starts id) io.events (egress_started (starting id) ∷ []),
    length-select-append (ends_egress id) io.events (egress_started (starting id) ∷ []),
  )

  active_io-fired :
      (io : EgressIo)
      → (fired (starts id) (active_io id io) ≡ fired (starts id) io)
        × (fired (ends_egress id) (active_io id io) ≡ fired (ends_egress id) io)
  active_io-fired io = ground (
    arith,
    length-select-append (starts id) io.events (egress_updated (active_info id) ∷ []),
    length-select-append (ends_egress id) io.events (egress_updated (active_info id) ∷ []),
  )

  ended_io-fired :
      (info : EgressInfo) (io : EgressIo)
      → str_eq info.egress_id id ≡ true
      → (fired (starts id) (ended_io info io) ≡ fired (starts id) io)
        × (fired (ends_egress id) (ended_io info io) ≡ fired (ends_egress id) io + 1)
  ended_io-fired info io is_id = ground (
    arith,
    is_id,
    length-select-append (starts id) io.events (egress_ended info ∷ []),
    length-select-append (ends_egress id) io.events (egress_ended info ∷ []),
  )

  server_after-fired :
      (end : JobEnd) (io : EgressIo)
      → str_eq id id ≡ true
      → let io' = server_after id end io in
        (fired (starts id) io' ≡ fired (starts id) io + 1)
        × (fired (ends_egress id) io' ≡ fired (ends_egress id) io + 1)
  server_after-fired not_connected io is_id =
      let begun = started_io-fired io is_id in
      let over = ended_io-fired (failed_info id) (started_io id io) is_id in
      (over.0 ∙ begun.0, over.1 ∙ ap (λ n. n + 1) begun.1)
  server_after-fired fails_later io is_id =
      let begun = started_io-fired io is_id in
      let ran = active_io-fired (started_io id io) in
      let over = ended_io-fired (failed_info id) (active_io id (started_io id io)) is_id in
      (over.0 ∙ ran.0 ∙ begun.0, over.1 ∙ ap (λ n. n + 1) (ran.1 ∙ begun.1))
  server_after-fired uploaded io is_id =
      let begun = started_io-fired io is_id in
      let ran = active_io-fired (started_io id io) in
      let over = ended_io-fired (finished_info id) (active_io id (started_io id io)) is_id in
      (over.0 ∙ ran.0 ∙ begun.0, over.1 ∙ ap (λ n. n + 1) (ran.1 ∙ begun.1))

-- The recorder's side: what a job adds to the reports, and that it gives its place up.
without_id-absent :
    (id : String) (ids : List String)
    → any_of (λ i. str_eq i id) ids ≡ false
    → without_id id ids ≡ ids
without_id-absent id [] h = refl
without_id-absent id (i ∷ ids) h = elim (Bool-cases (str_eq i id)) [
  | inl e ↦ absurd (ground (arith, h, e))
  | inr e ↦ rw e (ap (λ rest. i ∷ rest) (without_id-absent id ids (ground (arith, h, e))))
]

without_id-with_id :
    (id : String) (ids : List String)
    → str_eq id id ≡ true
    → any_of (λ i. str_eq i id) ids ≡ false
    → without_id id (with_id id ids) ≡ ids
without_id-with_id id ids is_id h = rw (h, is_id) (without_id-absent id ids h)

run_job-accept_job :
    (id : String) (spec : RecSpec) (end : JobEnd) (s : Handlers)
    → str_eq id id ≡ true
    → any_of (λ i. str_eq i id) s.active ≡ false
    → let s' = run_job true id end (accept_job true true id spec s).0 in
      (s'.reports ≡ s.reports ++ job_reports id end) × (s'.active ≡ s.active)
unfolding run_job run_one accept_job
run_job-accept_job id spec not_connected s is_id idle =
    (append_assoc s.reports _ _, without_id-with_id id s.active is_id idle)
run_job-accept_job id spec fails_later s is_id idle = (
  append_assoc (s.reports ++ create true (starting id) ∷ []) _ _ ∙ append_assoc s.reports _ _,
  without_id-with_id id s.active is_id idle,
)
run_job-accept_job id spec uploaded s is_id idle = (
  append_assoc (s.reports ++ create true (starting id) ∷ []) _ _ ∙ append_assoc s.reports _ _,
  without_id-with_id id s.active is_id idle,
)

abbrev pub is_started : Started → Bool
is_started (started info spec) = true
is_started (not_started e) = false

after_check-accept_job :
    (id : String) (any : RecSpec) (c : Checked) (s : Handlers)
    → is_started (after_check true true id c s).1 ≡ true
    → (after_check true true id c s).0 ≡ (accept_job true true id any s).0
unfolding after_check accept_job
after_check-accept_job id any (refuses e) s h = absurd (ground (arith, h))
after_check-accept_job id any (goes_on spec) s h = refl

start_egress-accept_job :
    (conf : EgressConfig) (capacity : ℕ) (req : StartRequest) (any : RecSpec) (s : Handlers)
    → is_started (start_egress conf capacity true true req s).1 ≡ true
    → (start_egress conf capacity true true req s).0 ≡ (accept_job true true req.egress_id any s).0
unfolding start_egress
start_egress-accept_job conf capacity req any s h =
    after_check-accept_job req.egress_id any (check_start conf capacity req s) s h

abbrev any_spec : RecSpec
any_spec = record { room = ""; format = wav; destination = local; filepath = ""; bitrate = 0 }

-- A recording that is accepted, and whose reports all reach a server that does not know it, is told to
-- the webhooks to have started once and to have ended once, however it ends: uploaded, failed, or never
-- connected. The server's store holds its last status, and the recorder has its place free again.
pub start_egress-run_job :
    (conf : EgressConfig) (capacity : ℕ) (req : StartRequest) (end : JobEnd) (s : Handlers)
    (io₀ : EgressIo)
    → is_started (start_egress conf capacity true true req s).1 ≡ true
    → any_of (λ i. str_eq i req.egress_id) s.active ≡ false
    → get req.egress_id (handle_all s.reports io₀).store ≡ none
    → any_of (λ i. str_eq i req.egress_id) (handle_all s.reports io₀).ended ≡ false
    → let id = req.egress_id in
      let s' = run_job true id end (start_egress conf capacity true true req s).0 in
      let io = handle_all s.reports io₀ in
      let io' = handle_all s'.reports io₀ in
      (fired (starts id) io' ≡ fired (starts id) io + 1)
      × (fired (ends_egress id) io' ≡ fired (ends_egress id) io + 1)
      × (get id io'.store ≡ some (record { egress_id = id; status = end_status end }))
      × (s'.active ≡ s.active)
start_egress-run_job conf capacity req end s io₀ accepted idle absent unended =
    let id : String = req.egress_id in
    let io : EgressIo = handle_all s.reports io₀ in
    let is_id : str_eq id id ≡ true = ground (arith, eq_iff id id) in
    let begun =
      ap (run_job true id end) (start_egress-accept_job conf capacity req any_spec s accepted) in
    let job = run_job-accept_job id any_spec end s is_id idle in
    let told =
      ap (λ w. handle_all w.reports io₀) begun
      ∙ ap (λ calls. handle_all calls io₀) job.0
      ∙ handle_all-append s.reports (job_reports id end) io₀
      ∙ handle_all-job_reports id end io absent unended in
    let counts = server_after-fired id end io is_id in
    (
      ap (fired (starts id)) told ∙ counts.0,
      ap (fired (ends_egress id)) told ∙ counts.1,
      ap (λ w. get id w.store) told ∙ server_after-store id end io,
      ap (λ w. w.active) begun ∙ job.1,
    )
