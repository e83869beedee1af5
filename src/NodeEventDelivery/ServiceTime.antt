-- ===== src/NodeEventDelivery/ServiceTime.antt =====
-- lib/node_event_delivery/src/node_event_service_time.h: the time is read where the controller is called. A
-- clock is a function of the state of the world.
use argus_redline.Base.{ℕ, Bool}
use argus_redline.Base.Words.{u32}
use argus_redline.NodeEventStore.Interface.{Storage}
use argus_redline.NodeEventDelivery.Controller.{ControllerResult, Sources}
use argus_redline.NodeEventDelivery.Controller.Attempts.{Machine, put_world}
use argus_redline.NodeEventDelivery.Controller.Service.{service}
use argus_redline.NodeEventDelivery.Controller.Radio.{tx_completed}

pub record ServiceTick : Type 0 where
  pub now : ℕ
  pub result : ControllerResult

module _ (storage : Storage) (sources : Sources storage) where
  abbrev pub Clock : Type 0
  Clock = storage.device.World → ℕ × storage.device.World

  pub service_now : Clock → Bool → Machine storage sources → ServiceTick × Machine storage sources
  service_now clock synchronous_work s =
      let (time, world) = clock s.policy.node.world in
      let now = u32 time in
      let (r, t) =
        service storage sources now synchronous_work (put_world storage sources world s) in
      (record { now = now; result = r }, t)

  pub tx_completed_now :
      Clock → Machine storage sources → ControllerResult × Machine storage sources
  tx_completed_now clock s =
      let (time, world) = clock s.policy.node.world in
      tx_completed storage sources (u32 time) (put_world storage sources world s)
