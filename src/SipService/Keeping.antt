-- ===== src/SipService/Keeping.antt =====
-- crates/lk-server/src/services_sip.rs: the dispatch of the calls that keep trunks and rules, and what
-- the store keeps.
use mathlib.Core.Option.{some_inj}
use livekit_rs_voice.Base.{
  ◌≡◌, refl, Bool, true, false, not, List, [], ◌∷◌, Option, none, some, String, str_eq, eq_iff,
  arith, sym, ap, ◌∙◌, if◌then◌else◌, is_some, Map, get, insert, remove, Bool-cases, inl, inr,
}
use livekit_rs_voice.Auth.{SipGrant}
use livekit_rs_voice.DispatchRules.{SipDispatchRuleInfo}
use livekit_rs_voice.SipIo.{SipInboundTrunkInfo}
use livekit_rs_voice.SipService.{
  SipOutboundTrunkInfo, SipStore, SipAnswer, answered, failed, Action, ensure_sip_admin,
}
use livekit_rs_voice.SipService.Trunks.{
  InboundUpdate, OutboundUpdate, create_inbound_trunk, create_outbound_trunk, get_inbound_trunk,
  get_outbound_trunk, update_inbound_trunk, update_outbound_trunk, list_inbound_trunks,
  list_outbound_trunks, delete_sip_trunk, store_inbound, store_outbound, updated_inbound,
  updated_outbound, update_outbound_found, keep_inbound, keep_outbound, got_inbound, got_outbound,
  update_inbound_found,
}
use livekit_rs_voice.SipService.Rules.{
  RuleUpdate, create_dispatch_rule, update_dispatch_rule, list_dispatch_rules, delete_dispatch_rule,
  store_rule, updated_rule, update_rule_found, delete_rule_found, keep_rule,
}

-- The methods that keep trunks and rules, with their decoded bodies.
pub data SipMethod : Type 0 where
  create_inbound : SipInboundTrunkInfo → SipMethod
  create_outbound : SipOutboundTrunkInfo → SipMethod
  get_inbound get_outbound : String → SipMethod
  update_inbound : String → Action SipInboundTrunkInfo InboundUpdate → SipMethod
  update_outbound : String → Action SipOutboundTrunkInfo OutboundUpdate → SipMethod
  list_inbound list_outbound list_rules : List String → List String → SipMethod
  delete_trunk delete_rule : String → SipMethod
  create_rule : SipDispatchRuleInfo → SipMethod
  update_rule : String → Action SipDispatchRuleInfo RuleUpdate → SipMethod

-- `drawn` is the id that is drawn.
unfoldable pub sip_service : SipGrant → String → SipMethod → SipStore → SipAnswer
unfolding create_inbound_trunk create_outbound_trunk get_inbound_trunk get_outbound_trunk
    update_inbound_trunk update_outbound_trunk list_inbound_trunks list_outbound_trunks
    delete_sip_trunk create_dispatch_rule update_dispatch_rule list_dispatch_rules
    delete_dispatch_rule
sip_service grant drawn (create_inbound t) s = create_inbound_trunk grant drawn t s
sip_service grant drawn (create_outbound t) s = create_outbound_trunk grant drawn t s
sip_service grant drawn (get_inbound id) s = get_inbound_trunk grant id s
sip_service grant drawn (get_outbound id) s = get_outbound_trunk grant id s
sip_service grant drawn (update_inbound id action) s = update_inbound_trunk grant id action s
sip_service grant drawn (update_outbound id action) s = update_outbound_trunk grant id action s
sip_service grant drawn (list_inbound ids numbers) s = list_inbound_trunks grant ids numbers s
sip_service grant drawn (list_outbound ids numbers) s = list_outbound_trunks grant ids numbers s
sip_service grant drawn (list_rules ids trunk_ids) s = list_dispatch_rules grant ids trunk_ids s
sip_service grant drawn (delete_trunk id) s = delete_sip_trunk grant id s
sip_service grant drawn (delete_rule id) s = delete_dispatch_rule grant id s
sip_service grant drawn (create_rule r) s = create_dispatch_rule grant drawn r s
sip_service grant drawn (update_rule id action) s = update_dispatch_rule grant id action s

abbrev pub store_after : SipAnswer → SipStore → SipStore
store_after (answered s' reply) s = s'
store_after (failed e) s = s

-- Every record is stored under its own id.
abbrev pub KeyedBy : {A : Type 0} → (A → String) → Map A → Type 0
KeyedBy key [] = Unit
KeyedBy key ((k, v) ∷ m) = (key v ≡ k) × KeyedBy key m

abbrev pub IsKeyed : SipStore → Type 0
IsKeyed s =
    KeyedBy (λ t. t.sip_trunk_id) s.inbound
    × KeyedBy (λ t. t.sip_trunk_id) s.outbound
    × KeyedBy (λ r. r.sip_dispatch_rule_id) s.rules

module _ {A : Type 0} (key : A → String) where
  insert-KeyedBy : (v : A) (m : Map A) → KeyedBy key m → KeyedBy key (insert (key v) v m)
  unfolding insert
  insert-KeyedBy v [] h = (refl, tt)
  insert-KeyedBy v ((j, w) ∷ m) h = elim (Bool-cases (str_eq j (key v))) [
    | inl e ↦ rw e (refl, h.1)
    | inr e ↦ rw e (h.0, insert-KeyedBy v m h.1)
  ]

  remove-KeyedBy : (k : String) (m : Map A) → KeyedBy key m → KeyedBy key (remove k m)
  unfolding remove
  remove-KeyedBy k [] h = tt
  remove-KeyedBy k ((j, w) ∷ m) h = elim (Bool-cases (str_eq j k)) [
    | inl e ↦ rw e (remove-KeyedBy k m h.1)
    | inr e ↦ rw e (h.0, remove-KeyedBy k m h.1)
  ]

  pub get-KeyedBy : (k : String) (m : Map A) (v : A) → KeyedBy key m → get k m ≡ some v → key v ≡ k
  unfolding get
  get-KeyedBy k [] v h e = absurd (ground (arith, e))
  get-KeyedBy k ((j, w) ∷ m) v h e = elim (Bool-cases (str_eq j k)) [
    | inl same ↦
        let hit : get k ((j, w) ∷ m) ≡ some w = rw same refl in
        let found : w ≡ v = some_inj.0 (sym hit ∙ e) in
        let at : j ≡ k = ground (arith, same, eq_iff j k) in sym (ap key found) ∙ h.0 ∙ at
    | inr other ↦
        let miss : get k ((j, w) ∷ m) ≡ get k m = rw other refl in
        get-KeyedBy k m v h.1 (sym miss ∙ e)
  ]

module _ (s : SipStore) (keyed : IsKeyed s) where
  guarded-IsKeyed :
      (b : Bool) (x y : SipAnswer)
      → IsKeyed (store_after x s)
      → IsKeyed (store_after y s)
      → IsKeyed (store_after (if b then x else y) s)
  guarded-IsKeyed true x y hx hy = hx
  guarded-IsKeyed false x y hx hy = hy

  store_inbound-IsKeyed : (t : SipInboundTrunkInfo) → IsKeyed (store_inbound t s)
  store_inbound-IsKeyed t =
      (insert-KeyedBy (λ x. x.sip_trunk_id) t s.inbound keyed.0, keyed.1, keyed.2)

  store_outbound-IsKeyed : (t : SipOutboundTrunkInfo) → IsKeyed (store_outbound t s)
  store_outbound-IsKeyed t =
      (keyed.0, insert-KeyedBy (λ x. x.sip_trunk_id) t s.outbound keyed.1, keyed.2)

  store_rule-IsKeyed : (r : SipDispatchRuleInfo) → IsKeyed (store_rule r s)
  store_rule-IsKeyed r =
      (keyed.0, keyed.1, insert-KeyedBy (λ x. x.sip_dispatch_rule_id) r s.rules keyed.2)

  keep_inbound-IsKeyed :
      (t : Option SipInboundTrunkInfo) → IsKeyed (store_after (keep_inbound s t) s)
  keep_inbound-IsKeyed none = keyed
  keep_inbound-IsKeyed (some t) = store_inbound-IsKeyed t

  keep_outbound-IsKeyed :
      (t : Option SipOutboundTrunkInfo) → IsKeyed (store_after (keep_outbound s t) s)
  keep_outbound-IsKeyed none = keyed
  keep_outbound-IsKeyed (some t) = store_outbound-IsKeyed t

  keep_rule-IsKeyed : (r : Option SipDispatchRuleInfo) → IsKeyed (store_after (keep_rule s r) s)
  keep_rule-IsKeyed none = keyed
  keep_rule-IsKeyed (some r) = store_rule-IsKeyed r

  update_inbound_found-IsKeyed :
      (action : Action SipInboundTrunkInfo InboundUpdate) (id : String)
      (t : Option SipInboundTrunkInfo)
      → IsKeyed (store_after (update_inbound_found action id s t) s)
  update_inbound_found-IsKeyed action id none = keyed
  update_inbound_found-IsKeyed action id (some t) =
      keep_inbound-IsKeyed (updated_inbound action id t)

  update_outbound_found-IsKeyed :
      (action : Action SipOutboundTrunkInfo OutboundUpdate) (id : String)
      (t : Option SipOutboundTrunkInfo)
      → IsKeyed (store_after (update_outbound_found action id s t) s)
  update_outbound_found-IsKeyed action id none = keyed
  update_outbound_found-IsKeyed action id (some t) =
      keep_outbound-IsKeyed (updated_outbound action id t)

  update_rule_found-IsKeyed :
      (action : Action SipDispatchRuleInfo RuleUpdate) (id : String)
      (r : Option SipDispatchRuleInfo)
      → IsKeyed (store_after (update_rule_found action id s r) s)
  update_rule_found-IsKeyed action id none = keyed
  update_rule_found-IsKeyed action id (some r) = keep_rule-IsKeyed (updated_rule action id r)

  got_inbound-IsKeyed : (t : Option SipInboundTrunkInfo) → IsKeyed (store_after (got_inbound s t) s)
  got_inbound-IsKeyed none = keyed
  got_inbound-IsKeyed (some t) = keyed

  got_outbound-IsKeyed :
      (t : Option SipOutboundTrunkInfo) → IsKeyed (store_after (got_outbound s t) s)
  got_outbound-IsKeyed none = keyed
  got_outbound-IsKeyed (some t) = keyed

  delete_rule_found-IsKeyed :
      (id : String) (r : Option SipDispatchRuleInfo)
      → IsKeyed (store_after (delete_rule_found id s r) s)
  delete_rule_found-IsKeyed id none = keyed
  delete_rule_found-IsKeyed id (some r) =
      (keyed.0, keyed.1, remove-KeyedBy (λ x. x.sip_dispatch_rule_id) id s.rules keyed.2)

  deleted-IsKeyed :
      (id : String)
      → IsKeyed (record s { inbound = remove id s.inbound; outbound = remove id s.outbound })
  deleted-IsKeyed id = (
    remove-KeyedBy (λ x. x.sip_trunk_id) id s.inbound keyed.0,
    remove-KeyedBy (λ x. x.sip_trunk_id) id s.outbound keyed.1,
    keyed.2,
  )

  -- Every call keeps the trunks and the rules of the store under their own ids, so that what is listed can
  -- be looked up by the id that it shows.
  pub sip_service-IsKeyed :
      (grant : SipGrant) (drawn : String) (call : SipMethod)
      → IsKeyed (store_after (sip_service grant drawn call s) s)
  unfolding sip_service create_inbound_trunk create_outbound_trunk get_inbound_trunk
      get_outbound_trunk update_inbound_trunk update_outbound_trunk list_inbound_trunks
      list_outbound_trunks delete_sip_trunk create_dispatch_rule update_dispatch_rule
      list_dispatch_rules delete_dispatch_rule
  sip_service-IsKeyed grant drawn (create_inbound t) =
      guarded-IsKeyed (not (ensure_sip_admin grant)) _ _ keyed
        (guarded-IsKeyed (not (str_eq t.sip_trunk_id "")) _ _ keyed (store_inbound-IsKeyed _))
  sip_service-IsKeyed grant drawn (create_outbound t) =
      guarded-IsKeyed (not (ensure_sip_admin grant)) _ _ keyed (
        guarded-IsKeyed (not (str_eq t.sip_trunk_id "")) _ _ keyed
          (guarded-IsKeyed (str_eq t.address "") _ _ keyed (store_outbound-IsKeyed _)))
  sip_service-IsKeyed grant drawn (get_inbound id) =
      guarded-IsKeyed (not (ensure_sip_admin grant)) _ _ keyed
        (got_inbound-IsKeyed (get id s.inbound))
  sip_service-IsKeyed grant drawn (get_outbound id) =
      guarded-IsKeyed (not (ensure_sip_admin grant)) _ _ keyed
        (got_outbound-IsKeyed (get id s.outbound))
  sip_service-IsKeyed grant drawn (update_inbound id action) =
      guarded-IsKeyed (not (ensure_sip_admin grant)) _ _ keyed
        (update_inbound_found-IsKeyed action id (get id s.inbound))
  sip_service-IsKeyed grant drawn (update_outbound id action) =
      guarded-IsKeyed (not (ensure_sip_admin grant)) _ _ keyed
        (update_outbound_found-IsKeyed action id (get id s.outbound))
  sip_service-IsKeyed grant drawn (list_inbound ids numbers) =
      guarded-IsKeyed (not (ensure_sip_admin grant)) _ _ keyed keyed
  sip_service-IsKeyed grant drawn (list_outbound ids numbers) =
      guarded-IsKeyed (not (ensure_sip_admin grant)) _ _ keyed keyed
  sip_service-IsKeyed grant drawn (list_rules ids trunk_ids) =
      guarded-IsKeyed (not (ensure_sip_admin grant)) _ _ keyed keyed
  sip_service-IsKeyed grant drawn (delete_trunk id) =
      guarded-IsKeyed (not (ensure_sip_admin grant)) _ _ keyed
        (guarded-IsKeyed (str_eq id "") _ _ keyed (deleted-IsKeyed id))
  sip_service-IsKeyed grant drawn (delete_rule id) =
      guarded-IsKeyed (not (ensure_sip_admin grant)) _ _ keyed
        (guarded-IsKeyed (str_eq id "") _ _ keyed (delete_rule_found-IsKeyed id (get id s.rules)))
  sip_service-IsKeyed grant drawn (create_rule r) =
      guarded-IsKeyed (not (ensure_sip_admin grant)) _ _ keyed (
        guarded-IsKeyed (not (str_eq r.sip_dispatch_rule_id "")) _ _ keyed
          (guarded-IsKeyed (not (is_some r.rule)) _ _ keyed (store_rule-IsKeyed _)))
  sip_service-IsKeyed grant drawn (update_rule id action) =
      guarded-IsKeyed (not (ensure_sip_admin grant)) _ _ keyed
        (update_rule_found-IsKeyed action id (get id s.rules))
