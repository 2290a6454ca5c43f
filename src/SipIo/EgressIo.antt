-- ===== src/SipIo/EgressIo.antt =====
-- crates/lk-server/src/ioservice.rs, `EgressIoHandlers`: the reports of the recorder and the webhooks
-- that they fire. The store is a map from ids; `loads` and `stores` say whether its calls succeed.
use livekit_rs_voice.Base.{
  ℕ, ◌≤◌, ◌≡◌, Bool, true, false, not, ◌&&◌, ◌||◌, List, [], ◌∷◌, ◌++◌, String, str_eq, eq_iff,
  arith, ◌==◌, if◌then◌else◌, is_some, any_of, length, select, Map, get, insert, get-insert,
  length-select-append,
}

pub record EgressInfo : Type 0 where
  pub egress_id : String
  pub status : ℕ

pub data EgressEvent : Type 0 where
  egress_started egress_updated egress_ended : EgressInfo → EgressEvent

pub record EgressIo : Type 0 where
  pub store : Map EgressInfo
  pub ended : List String
  pub events : List EgressEvent

-- EGRESS_COMPLETE, EGRESS_FAILED, EGRESS_ABORTED and EGRESS_LIMIT_REACHED.
unfoldable pub is_terminal : ℕ → Bool
is_terminal status = status == 3 || status == 4 || status == 5 || status == 6

-- HashSet::insert: whether the id is new.
abbrev pub is_new_id : String → List String → Bool
is_new_id id ids = not (any_of (λ i. str_eq i id) ids)

abbrev pub fire : EgressEvent → EgressIo → EgressIo
fire e s = record s { events = s.events ++ e ∷ [] }

abbrev pub store_egress : EgressInfo → EgressIo → EgressIo
store_egress info s = record s { store = insert info.egress_id info s.store }

-- `false` is the error of the store, which is handed on.
unfoldable pub create_egress : Bool → Bool → EgressInfo → EgressIo → EgressIo × Bool
create_egress loads stores info s =
    if loads && is_some (get info.egress_id s.store)
    then (s, true)
    else if not stores
    then (s, false)
    else (fire (egress_started info) (store_egress info s), true)

unfoldable pub update_egress : Bool → EgressInfo → EgressIo → EgressIo × Bool
unfolding is_terminal
update_egress stores info s =
    let stored = store_egress info s in
    if not stores
    then (s, false)
    else if not (is_terminal info.status)
    then (fire (egress_updated info) stored, true)
    else if is_new_id info.egress_id s.ended
    then (fire (egress_ended info) (record stored { ended = info.egress_id ∷ s.ended }), true)
    else (stored, true)

pub data EgressCall : Type 0 where
  create update : Bool → EgressInfo → EgressCall

-- A call, of a store that can be read.
unfoldable pub handle_egress : EgressCall → EgressIo → EgressIo × Bool
unfolding create_egress update_egress
handle_egress (create stores info) s = create_egress true stores info s
handle_egress (update stores info) s = update_egress stores info s

unfoldable pub handle_all : List EgressCall → EgressIo → EgressIo
unfolding handle_egress
handle_all [] s = s
handle_all (c ∷ calls) s = handle_all calls (handle_egress c s).0

abbrev pub starts : String → EgressEvent → Bool
starts id (egress_started info) = str_eq info.egress_id id
starts id (egress_updated info) = false
starts id (egress_ended info) = false

abbrev pub ends_egress : String → EgressEvent → Bool
ends_egress id (egress_started info) = false
ends_egress id (egress_updated info) = false
ends_egress id (egress_ended info) = str_eq info.egress_id id

abbrev pub fired : (EgressEvent → Bool) → EgressIo → ℕ
fired kind s = length (select kind s.events)

-- What every history of calls keeps: an egress that has started is in the store, one that has ended is
-- among the ended, and each has done so once.
pub record CountsOnce (id : String) (s : EgressIo) : Type 0 where
  pub started : fired (starts id) s ≤ (if is_some (get id s.store) then 1 else 0)
  pub over : fired (ends_egress id) s ≡ (if is_new_id id s.ended then 0 else 1)

handle_egress-CountsOnce :
    (id : String) (c : EgressCall) (s : EgressIo)
    → CountsOnce id s
    → CountsOnce id (handle_egress c s).0
unfolding handle_egress create_egress update_egress
handle_egress-CountsOnce id (create stores info) s h = ground (
  arith,
  h.started,
  h.over,
  eq_iff info.egress_id id,
  get-insert info.egress_id id info s.store,
  length-select-append (starts id) s.events (egress_started info ∷ []),
  length-select-append (ends_egress id) s.events (egress_started info ∷ []),
)
handle_egress-CountsOnce id (update stores info) s h = ground (
  arith,
  h.started,
  h.over,
  eq_iff info.egress_id id,
  get-insert info.egress_id id info s.store,
  length-select-append (starts id) s.events (egress_updated info ∷ []),
  length-select-append (ends_egress id) s.events (egress_updated info ∷ []),
  length-select-append (starts id) s.events (egress_ended info ∷ []),
  length-select-append (ends_egress id) s.events (egress_ended info ∷ []),
)

handle_all-CountsOnce :
    (id : String) (calls : List EgressCall) (s : EgressIo)
    → CountsOnce id s
    → CountsOnce id (handle_all calls s)
unfolding handle_all
handle_all-CountsOnce id [] s h = h
handle_all-CountsOnce id (c ∷ calls) s h =
    handle_all-CountsOnce id calls (handle_egress c s).0 (handle_egress-CountsOnce id c s h)

abbrev pub no_egress : Map EgressInfo → EgressIo
no_egress store = record { store = store; ended = []; events = [] }

-- Whatever reports arrive for whatever recordings, one after the other, and whichever of them the store
-- fails to write, each
-- recording is told to have started once at most, and to have ended once at most, for as long as the
-- server runs, if the store can be read.
pub handle_all-once :
    (id : String) (calls : List EgressCall) (store : Map EgressInfo)
    → let s = handle_all calls (no_egress store) in
      (fired (starts id) s ≤ 1) × (fired (ends_egress id) s ≤ 1)
handle_all-once id calls store =
    let ok = handle_all-CountsOnce id calls (no_egress store) (ground arith) in
    (ground (arith, ok.started), ground (arith, ok.over))
