-- ===== src/NodeEventDelivery/Reclamation.antt =====
-- lib/node_event_delivery/src/node_event_reclamation.h: the slots of Events that have ended become free. A
-- controller that is given has the same store; its absence is `false`.
pub mod Custody
use argus_redline.Base.{
  ℕ, zero, suc, ◌+◌, Bool, false, not, ◌&&◌, ◌||◌, Option, none, some, ◌==◌, if◌then◌else◌,
}
use argus_redline.Base.Methods.{Method, ◌>>◌, return}
use argus_redline.EventRecords.NodeRecord.{NodeRecord}
use argus_redline.NodeEventStore.{MutationStatus, record_at}
use argus_redline.NodeEventStore.Commits
use argus_redline.NodeEventStore.Interface.{Storage}
use argus_redline.NodeEventStore.Operations
use argus_redline.NodeEventStore.Operations.{is_terminal}
use argus_redline.NodeEventDelivery.Controller.{ControllerStatus, Sources}
use argus_redline.NodeEventDelivery.Controller.Attempts.{Machine, put_node}
use argus_redline.NodeEventDelivery.Controller.Radio.{reclaim_terminal}

abbrev pub is_terminal_record : Option NodeRecord → Bool
is_terminal_record none = false
is_terminal_record (some r) = is_terminal r

module _ (storage : Storage) (sources : Sources storage) where
  abbrev pub terminal_at : ℕ → Machine storage sources → Bool
  terminal_at slot s = is_terminal_record (record_at slot s.policy.node.store)

  -- The loop over the slots that are left, from the given one.
  pub terminal_from : ℕ → ℕ → Machine storage sources → Bool
  terminal_from zero slot s = false
  terminal_from (suc n) slot s = terminal_at slot s || terminal_from n (slot + 1) s

  pub has_terminal_records : Machine storage sources → Bool
  unfolding terminal_from
  has_terminal_records s = terminal_from 8 0 s

  abbrev pub by_controller :
      ControllerStatus → Machine storage sources → Option (Unit {0}) × Machine storage sources
  by_controller ControllerStatus.ok s = (some tt, s)
  by_controller _ s = (none, s)

  abbrev pub by_store :
      MutationStatus × Commits.Machine storage
      → Machine storage sources
      → Option (Unit {0}) × Machine storage sources
  by_store (MutationStatus.ok, node) s = (some tt, put_node storage sources node s)
  by_store (_, node) s = (none, put_node storage sources node s)

  pub reclaim_slot : Bool → ℕ → Method (Machine storage sources) (Unit {0})
  reclaim_slot controller slot s =
      if not (terminal_at slot s)
      then return tt s
      else if controller && (s.control.active && (s.control.active_slot == slot))
      then (let (r, t) = reclaim_terminal storage sources s in by_controller r.status t)
      else by_store (Operations.reclaim storage slot s.policy.node) s

  pub reclaim_slots : Bool → ℕ → ℕ → Method (Machine storage sources) (Unit {0})
  unfolding reclaim_slot
  reclaim_slots controller zero slot = return tt
  reclaim_slots controller (suc n) slot = do
    reclaim_slot controller slot
    reclaim_slots controller n (slot + 1)

  -- A result of `none` is `false`.
  pub reclaim_terminals : Bool → Method (Machine storage sources) (Unit {0})
  unfolding reclaim_slots
  reclaim_terminals controller s =
      if not s.policy.node.store.healthy then (none, s) else reclaim_slots controller 8 0 s
