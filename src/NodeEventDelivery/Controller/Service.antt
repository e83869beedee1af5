-- ===== src/NodeEventDelivery/Controller/Service.antt =====
-- The class Controller of lib/node_event_delivery/src/node_event_delivery.h: recovery, new Events and `service`.
pub mod Custody
use argus_redline.Base.{ℕ, Bool, true, false, not, ◌&&◌, leb, if◌then◌else◌}
use argus_redline.Base.Words.{sub_u32}
use argus_redline.EventProtocol.{has_valid_endpoints}
use argus_redline.EventRecords.NodeRecord.{max_attempts}
use argus_redline.NodeEventStore.Interface.{Storage}
use argus_redline.NodeEventDelivery.Policy
use argus_redline.NodeEventDelivery.Policy.{Status, AttemptResult}
use argus_redline.NodeEventDelivery.Controller.{
  admission_timeout_milliseconds, RuntimeState, is_state, ControllerStatus, Sources, result, reset,
  clear_attempt, set_state, terminal,
}
use argus_redline.NodeEventDelivery.Controller.Attempts.{
  Machine, Handler, change, answer, current, attempts_used, degrade_silently, usable, load_head,
  mark_failed, service_lifetime, unless_expired, failed_attempt,
}

module _ (storage : Storage) (sources : Sources storage) where
  abbrev pub active_result : Handler storage sources
  active_result s = (
    result (if s.control.active then ControllerStatus.ok else ControllerStatus.no_active_event),
    s,
  )

  pub after_policy : Handler storage sources
  after_policy s =
      let t =
        load_head storage sources
          (change storage sources (λ c. record c { initialized = true }) s) in
      if t.control.active
        && leb max_attempts (attempts_used storage sources (current storage sources t))
      then mark_failed storage sources active_result t
      else active_result t

  abbrev pub is_ready_status : Status → Bool
  is_ready_status Status.ready = true
  is_ready_status _ = false

  pub recover : ℕ → ℕ → ℕ → Handler storage sources
  unfolding after_policy
  recover source hub now s =
      if not (has_valid_endpoints source hub)
      then (result ControllerStatus.invalid_configuration, change storage sources (λ c. reset) s)
      else (let policy = Policy.recover storage now s.policy in
          let t : Machine storage sources = record {
            control = record reset { source = source; destination = hub };
            policy = policy;
          } in
          if is_ready_status policy.policy.status
          then after_policy t
          else degrade_silently storage sources ControllerStatus.policy_failure t)

  pub track_enqueued : ℕ → ℕ → Handler storage sources
  track_enqueued slot now s =
      if not (usable storage sources s)
      then degrade_silently storage sources ControllerStatus.degraded s
      else (let (status, policy) = Policy.track_enqueued storage slot now s.policy in
          (if is_ready_status status
              then answer storage sources (result ControllerStatus.ok)
              else degrade_silently storage sources ControllerStatus.policy_failure)
            (record s { policy = policy }))

  pub service_state : ℕ → Bool → RuntimeState → Handler storage sources
  service_state now synchronous_work RuntimeState.queued s =
      if leb max_attempts (attempts_used storage sources (current storage sources s))
      then mark_failed storage sources (answer storage sources (result ControllerStatus.ok)) s
      else if not synchronous_work
      then (result ControllerStatus.ok, change storage sources (set_state RuntimeState.ready) s)
      else (result ControllerStatus.ok, s)
  service_state now synchronous_work RuntimeState.ready s = (
    result ControllerStatus.ok,
    (if synchronous_work then change storage sources (set_state RuntimeState.queued) s else s),
  )
  service_state now synchronous_work RuntimeState.wait_admission s =
      if leb admission_timeout_milliseconds (sub_u32 now s.control.deadline_origin)
      then failed_attempt storage sources now true s
      else (result ControllerStatus.ok, s)
  service_state now synchronous_work RuntimeState.backoff s =
      if leb s.control.deadline_duration (sub_u32 now s.control.deadline_origin)
      then (let state = if synchronous_work then RuntimeState.queued else RuntimeState.ready in
          (result ControllerStatus.ok, change storage sources (set_state state) s))
      else (result ControllerStatus.ok, s)
  service_state now synchronous_work _ s = (result ControllerStatus.ok, s)

  abbrev pub after_release : Machine storage sources → Machine storage sources
  after_release s =
      if is_state s.control.state RuntimeState.released
      then load_head storage sources
          (change storage sources (λ c. record (clear_attempt c) { active = false }) s)
      else s

  pub service_active : ℕ → Bool → Handler storage sources
  unfolding service_state
  service_active now synchronous_work s =
      if not s.control.active
      then (result ControllerStatus.no_active_event, s)
      else service_lifetime storage sources now
          (unless_expired storage sources λ t.
            if terminal t.control.state
            then (result ControllerStatus.ok, t)
            else service_state now synchronous_work t.control.state t)
          s

  pub service : ℕ → Bool → Handler storage sources
  unfolding service_active
  service now synchronous_work s =
      if not (usable storage sources s)
      then (result ControllerStatus.degraded, s)
      else (let t = after_release s in
          service_active now synchronous_work
            (if t.control.active then t else load_head storage sources t))
