-- ===== src/HubEventLedger/Operations/Reports.antt =====
-- What the ledger of lib/hub_event_ledger/src/hub_event_ledger.h reports leaves its invariant alone.
use argus_redline.RuntimeState.{EventSnapshot}
use argus_redline.HubEventLedger.{Ledger}
use argus_redline.HubEventLedger.Invariant.{IsLedger}
use argus_redline.HubEventLedger.Operations.{set_report}

pub IsLedger-set_report :
    (f : EventSnapshot → EventSnapshot) (l : Ledger) → IsLedger l → IsLedger (set_report f l)
IsLedger-set_report f l h = record {
  unique = h.unique;
  storable = h.storable;
  ordinals = λ r.
      let o = h.ordinals r in
      record {
        metadata = o.metadata;
        positive = o.positive;
        within = o.within;
        reserved = o.reserved;
        below = o.below;
      };
}
