-- ===== src/NodeEventDelivery/Controller/Attempts.antt =====
-- The class Controller of lib/node_event_delivery/src/node_event_delivery.h: its state, and what its methods share.
pub mod Custody
pub mod Releases
use argus_redline.Base.{
  ℕ, ◌+◌, Bool, true, false, not, ◌&&◌, Option, none, some, ltb, leb, ◌==◌, if◌then◌else◌,
}
use argus_redline.EventRecords.NodeRecord.{NodeRecord, NodeState, max_attempts}
use argus_redline.RuntimeState.{EventSnapshot, set_hub_unavailable}
use argus_redline.NodeEventStore
use argus_redline.NodeEventStore.{MutationStatus, zero_record, is_queued, record_at}
use argus_redline.NodeEventStore.Commits
use argus_redline.NodeEventStore.Interface.{Storage}
use argus_redline.NodeEventStore.Operations
use argus_redline.NodeEventStore.Operations.{set_report}
use argus_redline.NodeEventDelivery.Policy
use argus_redline.NodeEventDelivery.Policy.{Status, AttemptResult}
use argus_redline.NodeEventDelivery.Controller.{
  max_backoff_jitter_milliseconds, RuntimeState, is_state, ControllerStatus, ControllerResult,
  Sources, Control, result, receiving, receive_result, clear_attempt, set_state, backoff_base, load,
  has_state,
}

module _ (storage : Storage) (sources : Sources storage) where
  pub record Machine : Type 0 where
    pub control : Control
    pub policy : Policy.Machine storage

  -- A method that returns what the radio is to do.
  abbrev pub Handler : Type 0
  Handler = Machine → ControllerResult × Machine

  abbrev pub change : (Control → Control) → Machine → Machine
  change f s = record s { control = f s.control }

  abbrev pub put_node : Commits.Machine storage → Machine → Machine
  put_node node s = record s { policy = record s.policy { node = node } }

  abbrev pub put_world : storage.device.World → Machine → Machine
  put_world world s = put_node (record s.policy.node { world = world }) s

  abbrev pub report : (EventSnapshot → EventSnapshot) → Machine → Machine
  report f s = put_node (record s.policy.node { store = set_report f s.policy.node.store }) s

  abbrev pub answer : ControllerResult → Handler
  answer r s = (r, s)

  -- `record()`; the pointer is null where the result is `none`.
  abbrev pub current : Machine → Option NodeRecord
  current s = if s.control.active then record_at s.control.active_slot s.policy.node.store else none

  abbrev pub attempts_used : Option NodeRecord → ℕ
  attempts_used none = 0
  attempts_used (some r) = r.attempts_used

  abbrev pub degraded_to : ControllerResult → Control → Control
  degraded_to r c = record c { is_degraded = true; degraded_result = r }

  -- `degrade(status, true)`.
  abbrev pub degrade : ControllerStatus → Handler
  degrade status s = (receiving status, change (degraded_to (receiving status)) s)

  -- `degrade(status, false)`.
  abbrev pub degrade_silently : ControllerStatus → Handler
  degrade_silently status s = (result status, change (degraded_to (result status)) s)

  abbrev pub usable : Machine → Bool
  usable s =
      s.control.initialized
      && (not s.control.is_degraded && (s.policy.node.store.healthy && s.policy.policy.is_ready))

  abbrev pub load_head : Machine → Machine
  load_head s = change (load (NodeEventStore.queued_at 0 s.policy.node.store)) s

  abbrev pub is_head : ℕ → Option (ℕ × NodeRecord) → Bool
  is_head slot none = false
  is_head slot (some (head, r)) = head == slot

  pub head_still_authoritative : Machine → Bool
  head_still_authoritative s =
      is_head s.control.active_slot (NodeEventStore.queued_at 0 s.policy.node.store)
      && has_state NodeState.queued (current s)

  -- What follows a change of the store that must succeed.
  abbrev pub settled : MutationStatus × Commits.Machine storage → Handler → Handler
  settled (MutationStatus.ok, node) k s = k (put_node node s)
  settled (_, node) k s = degrade ControllerStatus.storage_failure (put_node node s)

  -- `if (!markFailed()) return degrade(STORAGE_FAILURE, true);` and what follows.
  pub mark_failed : Handler → Handler
  mark_failed k s =
      settled (Operations.mark_failed storage s.control.active_slot s.policy.node)
        (λ t. k (change (λ c. clear_attempt (set_state RuntimeState.failed c)) t)) s

  pub after_lifetime : Handler → Option (Unit {0}) × Policy.Machine storage → Handler
  after_lifetime k (none, policy) s =
      degrade ControllerStatus.policy_failure (record s { policy = policy })
  after_lifetime k (some u, policy) s =
      let t = record s { policy = policy } in
      k (
        if has_state NodeState.expired (current t)
        then change (λ c. clear_attempt (set_state RuntimeState.expired c)) t
        else t)

  -- `if (!serviceLifetime(now)) return degradedResult_;` and what follows.
  pub service_lifetime : ℕ → Handler → Handler
  unfolding after_lifetime
  service_lifetime now k s = after_lifetime k (Policy.service storage now s.policy) s

  -- `if (state_ == RuntimeState::EXPIRED) return receiveResult();` and what follows.
  abbrev pub unless_expired : Handler → Handler
  unless_expired k s =
      if is_state s.control.state RuntimeState.expired then (receive_result, s) else k s

  pub schedule : ℕ → ℕ → Handler
  schedule now attempts s =
      let (jitter, world) = sources.next_milliseconds s.policy.node.world in
      let t = put_world world s in
      if ltb max_backoff_jitter_milliseconds jitter
      then degrade ControllerStatus.invalid_configuration t
      else (
        receive_result,
        change
            (λ c. record c {
              deadline_origin = now;
              deadline_duration = backoff_base attempts + jitter;
              state = RuntimeState.backoff;
            })
            t,
      )

  pub retry : ℕ → Option NodeRecord → Handler
  unfolding mark_failed schedule
  retry now none s = mark_failed (answer receive_result) s
  retry now (some r) s =
      if leb max_attempts r.attempts_used
      then mark_failed (answer receive_result) s
      else schedule now r.attempts_used s

  pub failed_attempt : ℕ → Bool → Handler
  unfolding retry
  failed_attempt now evidence s =
      let t = if evidence then report (set_hub_unavailable true) s else s in retry now (current t) t
