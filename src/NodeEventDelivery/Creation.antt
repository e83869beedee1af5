-- ===== src/NodeEventDelivery/Creation.antt =====
-- lib/node_event_delivery/src/node_event_creation.h: the sink of the producers of Events, which also has the
-- controller follow a new one.
use argus_redline.Base.{ℕ, Option, none, some, if◌then◌else◌}
use argus_redline.Base.Words.{u32}
use argus_redline.EventProducers.{CreationResult, Sink, normalize}
use argus_redline.NodeEventStore.{EventInput, EnqueueResult}
use argus_redline.NodeEventStore.Interface.{Storage}
use argus_redline.NodeEventStore.Operations.{enqueue}
use argus_redline.NodeEventDelivery.Controller.{ControllerStatus, Sources}
use argus_redline.NodeEventDelivery.Controller.Attempts.{Machine, put_node, put_world}
use argus_redline.NodeEventDelivery.Controller.Service.{track_enqueued}
use argus_redline.NodeEventDelivery.ServiceTime.{Clock}

module _ (storage : Storage) (sources : Sources storage) where
  -- A slot of `none` is 0xFF, which is no slot.
  abbrev slot_number : Option ℕ → ℕ
  slot_number none = 0xFF
  slot_number (some slot) = slot

  abbrev tracked : ControllerStatus → CreationResult
  tracked ControllerStatus.ok = CreationResult.enqueued
  tracked _ = CreationResult.storage_failure

  -- The time is read after the Event is stored.
  abbrev follow :
      Clock storage sources
      → EnqueueResult
      → CreationResult
      → Machine storage sources
      → CreationResult × Machine storage sources
  follow clock r CreationResult.enqueued s =
      let (time, world) = clock s.policy.node.world in
      let (result, t) =
        track_enqueued storage sources (slot_number r.slot) (u32 time)
          (put_world storage sources world s) in
      (tracked result.status, t)
  follow clock r created s = (created, s)

  pub create :
      Clock storage sources
      → EventInput
      → Machine storage sources
      → CreationResult × Machine storage sources
  create clock input s =
      if s.control.is_degraded
      then (CreationResult.storage_failure, s)
      else (let (r, node) = enqueue storage input s.policy.node in
          follow clock r (normalize r.status) (put_node storage sources node s))

  abbrev pub tracked_creation_sink : Clock storage sources → Sink
  tracked_creation_sink clock = record { World = Machine storage sources; create = create clock }
