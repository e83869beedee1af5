-- ===== src/HubEventLedger/Custody.antt =====
-- What the ledger of lib/hub_event_ledger/src/hub_event_ledger.h promises, without slots, copies and
-- generations: a map from identities to Events in custody, and what admissions and consumptions do to it.
use argus_redline.Base.{
  ℕ, ◌<◌, ◌≡◌, ◌≢◌, ◌⊎◌, true, Option, none, some, List, replicate, copy, bytes_equal,
}
use argus_redline.EventProtocol.{Event, Identity}
use argus_redline.EventRecords.Canonical.{Content}
use argus_redline.EventRecords.HubRecord.{HubRecord, HubState, content, same_state}
use argus_redline.HubEventLedger.{
  AdmissionStatus, durable_new_admission, exact_duplicate, capacity, identity_content_mismatch,
  unsupported_event, malformed_event, routing_rejected, ConsumeStatus, SlotState, event_identity,
}
use argus_redline.HubEventLedger.Slots.{lookup}

pub record Entry : Type 0 where
  pub state : HubState
  pub ordinal : ℕ
  pub content : Content

abbrev pub Custody : Type 0
Custody = Identity → Option Entry

abbrev pub entry_of : HubRecord → Entry
entry_of r = record { state = r.state; ordinal = r.admission_ordinal; content = content r }

abbrev pub entry_at : Option HubRecord → Option Entry
entry_at none = none
entry_at (some r) = some (entry_of r)

abbrev pub custody : List SlotState → Custody
custody slots i = entry_at (lookup i slots)

abbrev pub event_content : Event → Content
event_content e = record {
  family = e.family;
  flags = e.flags;
  body_length = e.body_length;
  epoch = e.epoch;
  id = e.id;
  lifetime = e.lifetime_budget_seconds;
  body = copy e.body_length (replicate 12 0) e.body;
}

abbrev pub new_entry : Event → ℕ → Entry
new_entry e n = record { state = HubState.active; ordinal = n; content = event_content e }

-- The Event has the content of what is in custody under its identity.
abbrev pub HasContent : Content → Event → Type 0
HasContent c e =
    (c.family ≡ e.family)
    × (c.flags ≡ e.flags)
    × (c.lifetime ≡ e.lifetime_budget_seconds)
    × (c.body_length ≡ e.body_length)
    × (bytes_equal e.body_length c.body e.body ≡ true)

abbrev pub IsConsumed : HubState → Type 0
IsConsumed state = same_state state HubState.consumed ≡ true

abbrev pub WasConsumed : Option Entry → Type 0
WasConsumed none = ⊥
WasConsumed (some x) = IsConsumed x.state

abbrev pub Same : Custody → Custody → Type 0
Same c c' = (i : Identity) → c' i ≡ c i

-- What an admission with a status and an ordinal may do to the custody. A new Event is in custody under
-- an identity that was free, with an ordinal above all others, and of the rest only what the host has
-- consumed may go.
abbrev pub Admits : Event → AdmissionStatus → ℕ → Custody → Custody → Type 0
Admits e durable_new_admission n c c' =
    (c (event_identity e) ≡ none)
    × (c' (event_identity e) ≡ some (new_entry e n))
    × ((i : Identity) (x : Entry) → c i ≡ some x → x.ordinal < n)
    × ((i : Identity) → i ≢ event_identity e → (c' i ≡ c i) ⊎ WasConsumed (c i))
Admits e exact_duplicate n c c' =
    ((x : Entry) × (c (event_identity e) ≡ some x) × HasContent x.content e × (x.ordinal ≡ n))
    × Same c c'
Admits e identity_content_mismatch n c c' =
    ((x : Entry) × (c (event_identity e) ≡ some x) × ¬ HasContent x.content e) × Same c c'
Admits e capacity n c c' = (c (event_identity e) ≡ none) × Same c c'
Admits e unsupported_event n c c' = Same c c'
Admits e malformed_event n c c' = Same c c'
Admits e routing_rejected n c c' = Same c c'
Admits e AdmissionStatus.storage_failure n c c' = (c (event_identity e) ≡ none) × Same c c'
Admits e AdmissionStatus.degraded n c c' = Same c c'

-- What a consumption may do: it turns the entry of its identity into a tombstone, and nothing else.
abbrev pub Consumes : Identity → ConsumeStatus → Custody → Custody → Type 0
Consumes i ConsumeStatus.consumed c c' =
    ((x : Entry) × (c i ≡ some x)
      × (same_state x.state HubState.active ≡ true)
      × (c' i ≡ some (record x { state = HubState.consumed })))
    × ((j : Identity) → j ≢ i → c' j ≡ c j)
Consumes i ConsumeStatus.already_consumed c c' =
    ((x : Entry) × (c i ≡ some x) × IsConsumed x.state) × Same c c'
Consumes i ConsumeStatus.not_found c c' = (c i ≡ none) × Same c c'
Consumes i ConsumeStatus.storage_failure c c' = Same c c'
Consumes i ConsumeStatus.degraded c c' = Same c c'
