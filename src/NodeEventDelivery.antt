-- ===== src/NodeEventDelivery.antt =====
-- lib/node_event_delivery/src/node_event_delivery.h: the Node's delivery of its Events. Policy counts the
-- time that an Event has left; Controller sends the Event at the head of the queue and waits for the Hub.
-- The observer that both may be given, which only counts, is left out. The pointer to the store is not
-- null where the object has recovered, and is not looked at before.
pub mod Policy
pub mod Controller
pub mod Reclamation
pub mod ServiceTime
pub mod Creation
