-- ===== src/NodeEventDelivery/Controller/Radio/Admission.antt =====
-- `admissionCandidate` of lib/node_event_delivery/src/node_event_delivery.h: when an Event is released.
use argus_redline.Base.{
  ℕ, ◌≡◌, ◌⊎◌, refl, inl, inr, true, false, ◌&&◌, Option, none, some, List, arith, Bool-cases,
}
use argus_redline.EventProtocol.{
  AdmissionResponse, AdmissionStatus, decode_admission_response, matches_event,
}
use argus_redline.NodeEventStore.Interface.{Storage}
use argus_redline.NodeEventDelivery.Controller.{RuntimeState, Sources, receive_result, is_state}
use argus_redline.NodeEventDelivery.Controller.Attempts.{Machine, usable}
use argus_redline.NodeEventDelivery.Controller.Attempts.Releases.{
  is_released, mark_failed-is_released, failed_attempt-is_released, service_lifetime-is_released,
}
use argus_redline.NodeEventDelivery.Controller.Radio.{admit, admit_response, admission_candidate}

-- The bytes are the Hub's answer that it has admitted the Event of the attempt.
pub record IsAdmission {storage : Storage} {sources : Sources storage} (bytes : Option (List ℕ))
    (s : Machine storage sources) : Type 0 where
  pub response : AdmissionResponse
  pub decoded : decode_admission_response bytes ≡ some response
  pub waiting : s.control.state ≡ RuntimeState.wait_admission
  pub correlated : s.control.correlation_valid ≡ true
  pub matching : matches_event response s.control.attempt_event ≡ true
  pub admitted : response.status ≡ AdmissionStatus.admitted

pub state_of_code :
    (state : RuntimeState)
    → is_state state RuntimeState.wait_admission ≡ true
    → state ≡ RuntimeState.wait_admission
state_of_code RuntimeState.wait_admission h = refl
state_of_code RuntimeState.queued h = absurd (cc (h))
state_of_code RuntimeState.ready h = absurd (cc (h))
state_of_code RuntimeState.tx_prepare h = absurd (cc (h))
state_of_code RuntimeState.tx h = absurd (cc (h))
state_of_code RuntimeState.backoff h = absurd (cc (h))
state_of_code RuntimeState.released h = absurd (cc (h))
state_of_code RuntimeState.failed h = absurd (cc (h))
state_of_code RuntimeState.expired h = absurd (cc (h))

module _ (storage : Storage) (sources : Sources storage) where
  admit-is_released :
      (now : ℕ) (status : AdmissionStatus) (s : Machine storage sources)
      → is_released storage sources s ≡ false
      → is_released storage sources (admit storage sources now status s).1 ≡ true
      → status ≡ AdmissionStatus.admitted
  unfolding admit
  admit-is_released now AdmissionStatus.admitted s h r = refl
  admit-is_released now AdmissionStatus.capacity s h r =
      absurd (let k = failed_attempt-is_released storage sources now true s h in cc (k, r))
  admit-is_released now AdmissionStatus.identity_content_mismatch s h r =
      absurd (let k = mark_failed-is_released storage sources receive_result s h in cc (k, r))
  admit-is_released now AdmissionStatus.unsupported_event s h r =
      absurd (let k = mark_failed-is_released storage sources receive_result s h in cc (k, r))
  admit-is_released now AdmissionStatus.malformed_event s h r =
      absurd (let k = mark_failed-is_released storage sources receive_result s h in cc (k, r))

  abbrev Matched : Option AdmissionResponse → Machine storage sources → Type 0
  Matched o s =
      (r : AdmissionResponse) × (o ≡ some r)
      × ((s.control.correlation_valid && matches_event r s.control.attempt_event) ≡ true)
      × (r.status ≡ AdmissionStatus.admitted)

  admit_response-is_released :
      (now : ℕ) (response : Option AdmissionResponse) (s : Machine storage sources)
      → is_released storage sources s ≡ false
      → is_released storage sources (admit_response storage sources now response s).1 ≡ true
      → Matched response s
  unfolding admit_response
  admit_response-is_released now none s h r = absurd (cc (h, r))
  admit_response-is_released now (some response) s h r =
      elim (Bool-cases
        (s.control.correlation_valid && matches_event response s.control.attempt_event)) [
          | inl e ↦ (response, refl, e, admit-is_released now response.status s h (rw (e) at r))
          | inr e ↦
              absurd (let same : is_released storage sources s ≡ true = rw (e) at r in cc (same, h))
        ]

  released_by :
      (bytes : Option (List ℕ)) (now : ℕ) (s : Machine storage sources)
      → is_released storage sources s ≡ false
      → is_released storage sources (admission_candidate storage sources bytes now s).1 ≡ true
      → IsAdmission bytes s
  unfolding admission_candidate
  released_by bytes now s h r =
      elim (Bool-cases
        (usable storage sources s && is_state s.control.state RuntimeState.wait_admission)) [
          | inl e ↦
              (let (policy, k) =
                  service_lifetime-is_released storage sources now
                    (admit_response storage sources now (decode_admission_response bytes)) s h
                    (rw (e) at r) in
                let (response, decoded, matched, admitted) =
                  admit_response-is_released now (decode_admission_response bytes)
                    (record s { policy = policy }) h k in
                record {
                  response = response;
                  decoded = decoded;
                  waiting = state_of_code s.control.state (ground arith);
                  correlated = ground (arith, matched);
                  matching = ground (arith, matched);
                  admitted = admitted;
                })
          | inr e ↦
              absurd (let same : is_released storage sources s ≡ true = rw (e) at r in cc (same, h))
        ]

  -- A call of admissionCandidate while no Event is released leaves none released, or the controller was
  -- waiting for the answer and the bytes decode to a response that matches the Event of the attempt and
  -- says ADMITTED.
  pub admission_candidate-IsAdmission :
      (bytes : Option (List ℕ)) (now : ℕ) (s : Machine storage sources)
      → is_state s.control.state RuntimeState.released ≡ false
      → (is_state
            (admission_candidate storage sources bytes now s).1.control.state
            RuntimeState.released
          ≡ false)
        ⊎ IsAdmission bytes s
  admission_candidate-IsAdmission bytes now s h =
      elim (Bool-cases
        (is_released storage sources (admission_candidate storage sources bytes now s).1)) [
          | inl e ↦ inr (released_by bytes now s h e)
          | inr e ↦ inl e
        ]
