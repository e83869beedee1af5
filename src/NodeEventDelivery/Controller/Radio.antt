-- ===== src/NodeEventDelivery/Controller/Radio.antt =====
-- The class Controller of lib/node_event_delivery/src/node_event_delivery.h: the methods around a
-- transmission, its answer and reclamation.
pub mod Custody
pub mod Admission
use argus_redline.Base.{ℕ, true, false, not, ◌&&◌, ◌||◌, Option, none, some, List, if◌then◌else◌}
use argus_redline.EventProtocol.{
  AdmissionResponse, AdmissionStatus, encode_event, decode_admission_response, matches_event,
}
use argus_redline.EventRecords.NodeRecord.{NodeRecord}
use argus_redline.RuntimeState.{
  admission_acknowledged, increment_event_diagnostic, set_hub_unavailable,
}
use argus_redline.NodeEventStore.{zero_record}
use argus_redline.NodeEventStore.Interface.{Storage}
use argus_redline.NodeEventStore.Operations
use argus_redline.NodeEventStore.Operations.{set_report}
use argus_redline.NodeEventDelivery.Policy
use argus_redline.NodeEventDelivery.Policy.{Status, AttemptResult}
use argus_redline.NodeEventDelivery.Controller.{
  admission_timeout_milliseconds, packet_capacity, RuntimeState, is_state, RadioActionType,
  ControllerStatus, Sources, result, receive_result, clear_attempt, set_state, event_of,
}
use argus_redline.NodeEventDelivery.Controller.Attempts.{
  Machine, Handler, change, put_world, report, answer, current, degrade, usable,
  head_still_authoritative, settled, mark_failed, service_lifetime, unless_expired, failed_attempt,
}

module _ (storage : Storage) (sources : Sources storage) where
  abbrev pub encoded : Option (List ℕ) → Handler storage sources
  encoded none s = degrade storage sources ControllerStatus.encode_failure s
  encoded (some bytes) s = (
    record {
      status = ControllerStatus.ok;
      action = record { type = RadioActionType.transmit; bytes = bytes };
    },
    change storage sources (λ c. record c { correlation_valid = true; state = RuntimeState.tx }) s,
  )

  abbrev pub record_of : Option NodeRecord → NodeRecord
  record_of none = zero_record
  record_of (some r) = r

  -- The record was armed just before, so the pointer to it is not null.
  pub send : Option ℕ → Handler storage sources
  send none s = degrade storage sources ControllerStatus.sequence_failure s
  send (some sequence) s =
      let e = event_of s.control sequence (record_of (current storage sources s)) in
      encoded (encode_event e (some packet_capacity))
        (change storage sources (λ c. record c { attempt_event = e }) s)

  pub after_arm : AttemptResult × Policy.Machine storage → Handler storage sources
  unfolding send
  after_arm (AttemptResult.armed, policy) s =
      let t = record s { policy = policy } in
      let (sequence, world) = sources.next_sequence t.policy.node.world in
      send sequence (put_world storage sources world t)
  after_arm (AttemptResult.expired, policy) s = (
    receive_result,
    change storage sources (set_state RuntimeState.expired) (record s { policy = policy }),
  )
  after_arm (AttemptResult.exhausted, policy) s =
      mark_failed storage sources (answer storage sources receive_result)
        (record s { policy = policy })
  after_arm (_, policy) s =
      degrade storage sources ControllerStatus.storage_failure (record s { policy = policy })

  pub arm : ℕ → Handler storage sources
  unfolding after_arm
  arm now s =
      if not (head_still_authoritative storage sources s)
      then degrade storage sources ControllerStatus.policy_failure s
      else after_arm (Policy.arm_attempt storage s.control.active_slot now s.policy) s

  pub grant_transmit : ℕ → Handler storage sources
  unfolding arm
  grant_transmit now s =
      if not (usable storage sources s)
      then (result ControllerStatus.degraded, s)
      else if not (s.control.active && is_state s.control.state RuntimeState.ready)
      then (result ControllerStatus.invalid_state, s)
      else service_lifetime storage sources now (unless_expired storage sources (arm now))
          (change storage sources (set_state RuntimeState.tx_prepare) s)

  -- The tests that the methods share that follow a transmission.
  abbrev pub while_in : RuntimeState → Handler storage sources → Handler storage sources
  while_in state k s =
      if not (usable storage sources s && is_state s.control.state state)
      then (result ControllerStatus.invalid_state, s)
      else k s

  pub tx_started : ℕ → Handler storage sources
  tx_started now = while_in RuntimeState.tx (
      service_lifetime storage sources now
        (unless_expired storage sources (answer storage sources (result ControllerStatus.ok))))

  pub tx_start_failed : ℕ → Handler storage sources
  tx_start_failed now = while_in RuntimeState.tx (
      service_lifetime storage sources now
        (unless_expired storage sources (failed_attempt storage sources now false)))

  abbrev pub await_admission : ℕ → Handler storage sources
  await_admission now s = (
    receive_result,
    change storage sources
        (λ c. record c {
          state = RuntimeState.wait_admission;
          deadline_origin = now;
          deadline_duration = admission_timeout_milliseconds;
        })
        s,
  )

  pub tx_completed : ℕ → Handler storage sources
  tx_completed now =
      while_in RuntimeState.tx (
        service_lifetime storage sources now (unless_expired storage sources (await_admission now)))

  pub release : Handler storage sources
  release s =
      settled storage sources
        (Operations.release_queued storage s.control.active_slot s.policy.node)
        (λ t. (
          receive_result,
          change storage sources (λ c. clear_attempt (set_state RuntimeState.released c))
              (report storage sources
                (λ e.
                  set_hub_unavailable false (increment_event_diagnostic admission_acknowledged 1 e))
                t),
        ))
        s

  pub admit : ℕ → AdmissionStatus → Handler storage sources
  unfolding release
  admit now AdmissionStatus.admitted s = release s
  admit now AdmissionStatus.capacity s = failed_attempt storage sources now true s
  admit now AdmissionStatus.identity_content_mismatch s =
      mark_failed storage sources (answer storage sources receive_result) s
  admit now AdmissionStatus.unsupported_event s =
      mark_failed storage sources (answer storage sources receive_result) s
  admit now AdmissionStatus.malformed_event s =
      mark_failed storage sources (answer storage sources receive_result) s

  pub admit_response : ℕ → Option AdmissionResponse → Handler storage sources
  unfolding admit
  admit_response now none s = (receive_result, s)
  admit_response now (some response) s =
      if not (s.control.correlation_valid && matches_event response s.control.attempt_event)
      then (receive_result, s)
      else admit now response.status s

  pub admission_candidate : Option (List ℕ) → ℕ → Handler storage sources
  unfolding admit_response
  admission_candidate bytes now = while_in RuntimeState.wait_admission (
      service_lifetime storage sources now
        (unless_expired storage sources (admit_response now (decode_admission_response bytes))))

  pub reclaim_terminal : Handler storage sources
  reclaim_terminal s =
      if not (
        usable storage sources s
        && (s.control.active
            && (is_state s.control.state RuntimeState.failed
                || is_state s.control.state RuntimeState.expired)))
      then (result ControllerStatus.invalid_state, s)
      else settled storage sources (Operations.reclaim storage s.control.active_slot s.policy.node)
          (λ t. (
            result ControllerStatus.ok,
            change storage sources (λ c. clear_attempt (record c { active = false })) t,
          ))
          s

  pub effective_remaining_seconds : Machine storage sources → ℕ
  effective_remaining_seconds s =
      if s.control.active
      then Policy.effective_remaining_seconds storage s.control.active_slot s.policy
      else 0

  pub successful_hub_exchange : Machine storage sources → Machine storage sources
  successful_hub_exchange s = report storage sources (set_hub_unavailable false) s
