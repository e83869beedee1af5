-- ===== src/NodeEventDelivery/Controller/Attempts/Releases.antt =====
-- The steps that the methods of the class Controller share release no Event, in
-- lib/node_event_delivery/src/node_event_delivery.h.
use argus_redline.Base.{
  ℕ, ◌≡◌, refl, inl, inr, Bool, true, false, Option, none, some, if◌then◌else◌, leb, ltb,
  Bool-cases,
}
use argus_redline.EventRecords.NodeRecord.{NodeRecord, NodeState, max_attempts}
use argus_redline.RuntimeState.{set_hub_unavailable}
use argus_redline.NodeEventStore.{MutationStatus}
use argus_redline.NodeEventStore.Commits
use argus_redline.NodeEventStore.Interface.{Storage}
use argus_redline.NodeEventDelivery.Policy
use argus_redline.NodeEventDelivery.Controller.{
  RuntimeState, ControllerResult, Sources, receive_result, is_state, has_state, clear_attempt,
  set_state, max_backoff_jitter_milliseconds,
}
use argus_redline.NodeEventDelivery.Controller.Attempts.{
  Machine, report, Handler, change, answer, current, settled, mark_failed, after_lifetime,
  service_lifetime, unless_expired, schedule, retry, failed_attempt,
}

module _ (storage : Storage) (sources : Sources storage) where
  abbrev pub is_released : Machine storage sources → Bool
  is_released s = is_state s.control.state RuntimeState.released

  pub mark_failed-is_released :
      (r : ControllerResult) (s : Machine storage sources)
      → is_released s ≡ false
      → is_released (mark_failed storage sources (answer storage sources r) s).1 ≡ false
  unfolding mark_failed
  mark_failed-is_released r s h = go _
    where
      go :
          (q : MutationStatus × Commits.Machine storage)
          → is_released
              (settled storage sources q
                (λ t.
                  answer storage sources r (
                    change storage sources
                      (λ c. clear_attempt (set_state RuntimeState.failed c))
                      t))
                s).1
            ≡ false
      go (MutationStatus.ok, node) = refl
      go (MutationStatus.storage_failure, node) = h
      go (MutationStatus.invalid_slot, node) = h
      go (MutationStatus.invalid_transition, node) = h
      go (MutationStatus.degraded, node) = h

  schedule-is_released :
      (now attempts : ℕ) (s : Machine storage sources)
      → is_released s ≡ false
      → is_released (schedule storage sources now attempts s).1 ≡ false
  unfolding schedule
  schedule-is_released now attempts s h =
      elim (Bool-cases
        (ltb max_backoff_jitter_milliseconds (sources.next_milliseconds s.policy.node.world).0)) [
          | inl e ↦ rw (e) h
          | inr e ↦ rw (e) refl
        ]

  retry-is_released :
      (now : ℕ) (r : Option NodeRecord) (s : Machine storage sources)
      → is_released s ≡ false
      → is_released (retry storage sources now r s).1 ≡ false
  unfolding retry
  retry-is_released now none s h = mark_failed-is_released receive_result s h
  retry-is_released now (some r) s h = elim (Bool-cases (leb max_attempts r.attempts_used)) [
    | inl e ↦ rw (e) (mark_failed-is_released receive_result s h)
    | inr e ↦ rw (e) (schedule-is_released now r.attempts_used s h)
  ]

  pub failed_attempt-is_released :
      (now : ℕ) (evidence : Bool) (s : Machine storage sources)
      → is_released s ≡ false
      → is_released (failed_attempt storage sources now evidence s).1 ≡ false
  unfolding failed_attempt
  failed_attempt-is_released now true s h =
      let t = report storage sources (set_hub_unavailable true) s in
      retry-is_released now (current storage sources t) t h
  failed_attempt-is_released now false s h = retry-is_released now (current storage sources s) s h

  -- After the time has been served, an Event is released by what follows, or not at all.
  pub service_lifetime-is_released :
      (now : ℕ) (k : Handler storage sources) (s : Machine storage sources)
      → is_released s ≡ false
      → is_released (service_lifetime storage sources now (unless_expired storage sources k) s).1
        ≡ true
      → (policy : Policy.Machine storage) × (is_released (k (record s { policy = policy })).1
          ≡ true)
  unfolding service_lifetime after_lifetime
  service_lifetime-is_released now k s h = go (Policy.service storage now s.policy)
    where
      choose :
          (t : Machine storage sources) (b : Bool)
          → is_released t ≡ false
          → is_released
              (unless_expired storage sources k (
                if b
                then change storage sources
                    (λ c. clear_attempt (set_state RuntimeState.expired c))
                    t
                else t)).1
            ≡ true
          → is_released (k t).1 ≡ true
      choose t true u r = absurd (cc (r))
      choose t false u r = elim (Bool-cases (is_state t.control.state RuntimeState.expired)) [
        | inl e ↦ absurd (let same : is_released t ≡ true = rw (e) at r in cc (same, u))
        | inr e ↦ rw (e) at r
      ]

      go :
          (q : Option (Unit {0}) × Policy.Machine storage)
          → is_released (after_lifetime storage sources (unless_expired storage sources k) q s).1
            ≡ true
          → (policy : Policy.Machine storage) × (is_released (k (record s { policy = policy })).1
              ≡ true)
      go (none, policy) r = absurd (cc (r, h))
      go (some u, policy) r = (
        policy,
        choose (record s { policy = policy })
            (has_state NodeState.expired (current storage sources (record s { policy = policy }))) h
            r,
      )
