-- ===== src/RuntimeState.antt =====
-- lib/runtime_state/src/runtime_state.h: what a device reports of its Events, and the counters of it.
use argus_redline.Base.{ℕ, ◌+◌, ◌-◌, Bool, true, false, Option, none, some, ltb, if◌then◌else◌}

abbrev pub uint32_max : ℕ
uint32_max = 0xffffffff

pub record EventDiagnosticCounters : Type 0 where
  pub enqueues_accepted : ℕ
  pub queue_full_rejections : ℕ
  pub persistence_failures : ℕ
  pub events_recovered : ℕ
  pub storage_corruptions : ℕ
  pub event_attempts : ℕ
  pub events_expired : ℕ
  pub attempts_exhausted : ℕ
  pub hub_capacity_rejections : ℕ
  pub identity_content_mismatches : ℕ
  pub duplicate_retransmissions : ℕ
  pub successful_admissions : ℕ
  pub admissions_acknowledged : ℕ
  pub host_polls_returned_event : ℕ
  pub host_consumptions : ℕ

pub record EventSnapshot : Type 0 where
  pub counters : EventDiagnosticCounters
  pub queued_count : ℕ
  pub queue_capacity : ℕ
  pub active_count : ℕ
  pub hub_unavailable : Bool
  pub persistence_degraded : Bool

pub data EventDiagnostic : Type 0 where
  enqueue_accepted queue_full_rejected persistence_failure event_recovered storage_corruption :
      EventDiagnostic
  event_attempt event_expired attempt_exhausted hub_capacity_rejection identity_content_mismatch :
      EventDiagnostic
  duplicate_retransmission successful_admission admission_acknowledged host_poll_returned_event
        host_consumption :
      EventDiagnostic

abbrev pub no_counts : EventDiagnosticCounters
no_counts = record {
  enqueues_accepted = 0;
  queue_full_rejections = 0;
  persistence_failures = 0;
  events_recovered = 0;
  storage_corruptions = 0;
  event_attempts = 0;
  events_expired = 0;
  attempts_exhausted = 0;
  hub_capacity_rejections = 0;
  identity_content_mismatches = 0;
  duplicate_retransmissions = 0;
  successful_admissions = 0;
  admissions_acknowledged = 0;
  host_polls_returned_event = 0;
  host_consumptions = 0;
}

abbrev pub no_snapshot : EventSnapshot
no_snapshot = record {
  counters = no_counts;
  queued_count = 0;
  queue_capacity = 0;
  active_count = 0;
  hub_unavailable = false;
  persistence_degraded = false;
}

abbrev pub saturating_increment : ℕ → ℕ → ℕ
saturating_increment value amount =
    if ltb (uint32_max - value) amount then uint32_max else value + amount

-- The counter that a diagnostic is about.
abbrev pub counter : EventDiagnostic → EventDiagnosticCounters → ℕ
counter enqueue_accepted c = c.enqueues_accepted
counter queue_full_rejected c = c.queue_full_rejections
counter persistence_failure c = c.persistence_failures
counter event_recovered c = c.events_recovered
counter storage_corruption c = c.storage_corruptions
counter event_attempt c = c.event_attempts
counter event_expired c = c.events_expired
counter attempt_exhausted c = c.attempts_exhausted
counter hub_capacity_rejection c = c.hub_capacity_rejections
counter identity_content_mismatch c = c.identity_content_mismatches
counter duplicate_retransmission c = c.duplicate_retransmissions
counter successful_admission c = c.successful_admissions
counter admission_acknowledged c = c.admissions_acknowledged
counter host_poll_returned_event c = c.host_polls_returned_event
counter host_consumption c = c.host_consumptions

abbrev pub increment_counter :
    EventDiagnostic → ℕ → EventDiagnosticCounters → EventDiagnosticCounters
increment_counter enqueue_accepted amount c = record c {
  enqueues_accepted = saturating_increment c.enqueues_accepted amount;
}
increment_counter queue_full_rejected amount c = record c {
  queue_full_rejections = saturating_increment c.queue_full_rejections amount;
}
increment_counter persistence_failure amount c = record c {
  persistence_failures = saturating_increment c.persistence_failures amount;
}
increment_counter event_recovered amount c = record c {
  events_recovered = saturating_increment c.events_recovered amount;
}
increment_counter storage_corruption amount c = record c {
  storage_corruptions = saturating_increment c.storage_corruptions amount;
}
increment_counter event_attempt amount c = record c {
  event_attempts = saturating_increment c.event_attempts amount;
}
increment_counter event_expired amount c = record c {
  events_expired = saturating_increment c.events_expired amount;
}
increment_counter attempt_exhausted amount c = record c {
  attempts_exhausted = saturating_increment c.attempts_exhausted amount;
}
increment_counter hub_capacity_rejection amount c = record c {
  hub_capacity_rejections = saturating_increment c.hub_capacity_rejections amount;
}
increment_counter identity_content_mismatch amount c = record c {
  identity_content_mismatches = saturating_increment c.identity_content_mismatches amount;
}
increment_counter duplicate_retransmission amount c = record c {
  duplicate_retransmissions = saturating_increment c.duplicate_retransmissions amount;
}
increment_counter successful_admission amount c = record c {
  successful_admissions = saturating_increment c.successful_admissions amount;
}
increment_counter admission_acknowledged amount c = record c {
  admissions_acknowledged = saturating_increment c.admissions_acknowledged amount;
}
increment_counter host_poll_returned_event amount c = record c {
  host_polls_returned_event = saturating_increment c.host_polls_returned_event amount;
}
increment_counter host_consumption amount c = record c {
  host_consumptions = saturating_increment c.host_consumptions amount;
}

abbrev pub increment_event_diagnostic : EventDiagnostic → ℕ → EventSnapshot → EventSnapshot
increment_event_diagnostic diagnostic amount s = record s {
  counters = increment_counter diagnostic amount s.counters;
}

abbrev pub set_event_queue : ℕ → ℕ → EventSnapshot → EventSnapshot
set_event_queue count capacity s = record s {
  queued_count = if ltb capacity count then capacity else count;
  queue_capacity = capacity;
}

abbrev pub set_active_event_count : ℕ → EventSnapshot → EventSnapshot
set_active_event_count count s = record s { active_count = count }

abbrev pub set_hub_unavailable : Bool → EventSnapshot → EventSnapshot
set_hub_unavailable unavailable s = record s { hub_unavailable = unavailable }

abbrev pub set_event_persistence_degraded : Bool → EventSnapshot → EventSnapshot
set_event_persistence_degraded degraded s = record s { persistence_degraded = degraded }

-- A component's pointer to the state, which may be null, and what it does through it.
abbrev pub Diagnostics : Type 0
Diagnostics = Option EventSnapshot

abbrev pub report : (EventSnapshot → EventSnapshot) → Diagnostics → Diagnostics
report f none = none
report f (some s) = some (f s)

-- `persistenceFailure()` of the Hub's ledger and of the Node's store.
abbrev pub persistence_failed : EventSnapshot → EventSnapshot
persistence_failed s =
    set_event_persistence_degraded true (increment_event_diagnostic persistence_failure 1 s)
