-- ===== src/NodeEventDelivery/Reclamation/Custody.antt =====
-- What the reclamation of lib/node_event_delivery/src/node_event_reclamation.h makes of the slots of the
-- store.
use argus_redline.Base.{
  ◌≡◌, refl, subst, sym, ℕ, zero, suc, ◌+◌, Bool, not, ◌&&◌, Option, none, some, ◌==◌,
}
use argus_redline.Base.Methods.{continue}
use argus_redline.NodeEventStore.{MutationStatus}
use argus_redline.NodeEventStore.Commits
use argus_redline.NodeEventStore.Interface.{Storage}
use argus_redline.NodeEventStore.Operations
use argus_redline.NodeEventStore.Operations.Life.{Kind, reclamation, HasMoved}
use argus_redline.NodeEventStore.Operations.Routes.{
  Any, Route, stay, Route-trans, Route-step, only, run-May,
}
use argus_redline.NodeEventStore.Operations.Transitions
use argus_redline.NodeEventStore.Operations.Transitions.{run}
use argus_redline.NodeEventDelivery.Controller.{ControllerStatus, Sources}
use argus_redline.NodeEventDelivery.Controller.Attempts.{Machine}
use argus_redline.NodeEventDelivery.Controller.Attempts.Custody.{slots_of, Route-if}
use argus_redline.NodeEventDelivery.Controller.Radio.{reclaim_terminal}
use argus_redline.NodeEventDelivery.Controller.Radio.Custody.{reclaim_terminal-Route}
use argus_redline.NodeEventDelivery.Reclamation.{
  terminal_at, by_controller, by_store, reclaim_slot, reclaim_slots, reclaim_terminals,
}

module _ (storage : Storage) (sources : Sources storage) where
  by_controller-slots :
      (status : ControllerStatus) (t : Machine storage sources)
      → slots_of storage sources (by_controller storage sources status t).1
        ≡ slots_of storage sources t
  by_controller-slots ControllerStatus.ok t = refl
  by_controller-slots ControllerStatus.no_active_event t = refl
  by_controller-slots ControllerStatus.invalid_configuration t = refl
  by_controller-slots ControllerStatus.invalid_state t = refl
  by_controller-slots ControllerStatus.sequence_failure t = refl
  by_controller-slots ControllerStatus.encode_failure t = refl
  by_controller-slots ControllerStatus.policy_failure t = refl
  by_controller-slots ControllerStatus.storage_failure t = refl
  by_controller-slots ControllerStatus.degraded t = refl

module _ (storage : Storage) (sources : Sources storage) (May : Kind → ℕ → Type 0)
    (may : (slot : ℕ) → May reclamation slot) where
  by_store-Route :
      (q : MutationStatus × Commits.Machine storage) (s : Machine storage sources)
      → HasMoved Any May (slots_of storage sources s) q.1.store.slots
      → Route May
          (slots_of storage sources s)
          (slots_of storage sources (by_store storage sources q s).1)
  by_store-Route (MutationStatus.ok, node) s h =
      Route-step May (slots_of storage sources s) node.store.slots h
  by_store-Route (MutationStatus.invalid_slot, node) s h =
      Route-step May (slots_of storage sources s) node.store.slots h
  by_store-Route (MutationStatus.invalid_transition, node) s h =
      Route-step May (slots_of storage sources s) node.store.slots h
  by_store-Route (MutationStatus.storage_failure, node) s h =
      Route-step May (slots_of storage sources s) node.store.slots h
  by_store-Route (MutationStatus.degraded, node) s h =
      Route-step May (slots_of storage sources s) node.store.slots h

  reclaim_slot-Route :
      (controller : Bool) (slot : ℕ) (s : Machine storage sources)
      → Route May
          (slots_of storage sources s)
          (slots_of storage sources (reclaim_slot storage sources controller slot s).1)
  unfolding reclaim_slot run
  reclaim_slot-Route controller slot s =
      Route-if storage sources May (not (terminal_at storage sources slot s)) s _ _ (λ e. stay)
        λ e.
          Route-if storage sources May
            (controller && (s.control.active && (s.control.active_slot == slot))) s _ _
            (λ f.
              subst (Route May (slots_of storage sources s))
                (sym (
                  by_controller-slots storage sources (reclaim_terminal storage sources s).0.status
                    (reclaim_terminal storage sources s).1))
                (reclaim_terminal-Route storage sources May s (λ g k. may s.control.active_slot)))
            λ f. by_store-Route (Operations.reclaim storage slot s.policy.node) s (
              run-May May storage (Transitions.reclaim_call slot) s.policy.node
                (only May reclamation slot (may slot)))

  reclaim_slots-Route :
      (controller : Bool) (n slot : ℕ) (s : Machine storage sources)
      → Route May
          (slots_of storage sources s)
          (slots_of storage sources (reclaim_slots storage sources controller n slot s).1)
  unfolding reclaim_slots
  reclaim_slots-Route controller zero slot s = stay
  reclaim_slots-Route controller (suc n) slot s =
      Route-trans May (slots_of storage sources s)
        (slots_of storage sources (reclaim_slot storage sources controller slot s).1) _
        (reclaim_slot-Route controller slot s)
        (go (reclaim_slot storage sources controller slot s)
          (λ t. reclaim_slots-Route controller n (slot + 1) t))
    where
      go :
          (q : Option (Unit {0}) × Machine storage sources)
          → ((t : Machine storage sources)
              → Route May (slots_of storage sources t) (
                  slots_of storage sources
                    (reclaim_slots storage sources controller n (slot + 1) t).1))
          → Route May (slots_of storage sources q.1) (
              slots_of storage sources
                (continue q.0 (λ _. reclaim_slots storage sources controller n (slot + 1)) q.1).1)
      go (some u, t) next = next t
      go (none, t) next = stay

  pub reclaim_terminals-Route :
      (controller : Bool) (s : Machine storage sources)
      → Route May
          (slots_of storage sources s)
          (slots_of storage sources (reclaim_terminals storage sources controller s).1)
  unfolding reclaim_terminals
  reclaim_terminals-Route controller s =
      Route-if storage sources May (not s.policy.node.store.healthy) s (none, s)
        (reclaim_slots storage sources controller 8 0 s) (λ e. stay)
        λ e. reclaim_slots-Route controller 8 0 s
