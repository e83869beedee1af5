-- ===== src/Examples/Store.antt =====
-- The Node's store of lib/node_event_store/src/node_event_store.h on a storage in memory.
use argus_redline.Base.{◌≡◌, refl, ◌&&◌}
use argus_redline.EventRecords.NodeRecord.{NodeState}
use argus_redline.NodeEventStore.{zero_record, slot_at, is_queued, SlotState}
use argus_redline.NodeEventStore.Index.{is_held, index, collect, clashes}
use argus_redline.NodeEventStore.Index.Order.{count, IsOrdered}
use argus_redline.NodeEventStore.Index.Contents.{index-IsOrdered}
use argus_redline.Base.{
  ℕ, zero, suc, arith, true, some, none, List, [], ◌∷◌, ◌==◌, if◌then◌else◌, length, replicate, All,
}
use argus_redline.EventIdentity.Interface.{StorageResult, Read}
use argus_redline.EventProtocol.Family
use argus_redline.EventStore.{CopySlot}
use argus_redline.HubEventLedger.Commits.{same_copy}
use argus_redline.NodeEventStore.Interface.{Storage}
use argus_redline.NodeEventStore.{EventInput, empty_slot, reset}
use argus_redline.NodeEventStore.Commits.{Machine}
use argus_redline.NodeEventStore.Recovery.{recover}
use argus_redline.NodeEventStore.Operations.Life.{HasMoved}
use argus_redline.NodeEventStore.Operations.Transitions.{
  Call, enqueue_call, arm_call, checkpoint_call, mark_expired_call, reclaim_call, Given, Makes, run,
  run-HasMoved,
}
use argus_redline.NodeEventStore.Operations.Bounds.{IsBounded, runs, runs-IsBounded}

pub record Cells : Type 0 where
  pub metadata : CopySlot → List ℕ
  pub events : ℕ → CopySlot → List ℕ

-- A cell is missing while it is empty.
abbrev pub read_cell : List ℕ → Read
read_cell xs = record {
  result = if length xs == 0 then StorageResult.missing else StorageResult.ok;
  bytes = xs;
  length = length xs;
}

abbrev pub cells : Storage
cells = record {
  device = record {
    World = Cells;
    read = λ c w. (read_cell (w.metadata c), w);
    write = λ c bytes w. (
      StorageResult.ok,
      record w { metadata = λ d. if same_copy c d then bytes else w.metadata d },
    );
    commit = λ w. (StorageResult.ok, w);
    next_uint32 = λ w. (some 7, w);
  };
  read_copy = λ slot c w. (read_cell (w.events slot c), w);
  write_copy = λ slot c bytes w. (
    StorageResult.ok,
    record w {
      events = λ i d.
          if slot == i then (if same_copy c d then bytes else w.events i d) else w.events i d;
    },
  );
}

abbrev pub blank : Cells
blank = record { metadata = λ c. []; events = λ i c. [] }

-- A button is pressed.
abbrev pub button : EventInput
button = record {
  family = Family.button;
  flags = 0;
  lifetime_budget_seconds = 600;
  body_length = 1;
  body = 1 ∷ replicate 11 0;
}

abbrev pub recovered : Machine cells
recovered = recover cells 2 none blank

run-HasMoved_example :
    HasMoved
      (Given cells recovered)
      (Makes (enqueue_call button))
      recovered.store.slots
      (run cells (enqueue_call button) recovered).store.slots
run-HasMoved_example = run-HasMoved cells (enqueue_call button) recovered

abbrev all_calls : List Call
all_calls =
    enqueue_call button
    ∷ (arm_call 0 ∷ (checkpoint_call 0 540 ∷ (mark_expired_call 0 ∷ (reclaim_call 0 ∷ []))))

abbrev pub empty : Machine cells
empty = record { store = record (reset none) { healthy = true }; world = blank }

free_slots-IsBounded : (n : ℕ) → All IsBounded (replicate n empty_slot)
free_slots-IsBounded zero = tt
free_slots-IsBounded (suc n) =
    (record { attempts = omega arith; lifetime = omega arith }, free_slots-IsBounded n)

runs-IsBounded_example : All IsBounded (runs cells all_calls empty).store.slots
runs-IsBounded_example = runs-IsBounded cells all_calls empty (free_slots-IsBounded 8)

-- Two Events are queued; the newer one stands in the first slot.
abbrev queued_slot : ℕ → SlotState
queued_slot id = record empty_slot {
  present = true;
  value = record zero_record { state = NodeState.queued; event_epoch = 7; event_id = id };
}

abbrev two_queued : List SlotState
two_queued = queued_slot 5 ∷ (queued_slot 3 ∷ replicate 6 empty_slot)

two_queued_indexed : (index two_queued).0 ≡ true
unfolding index collect clashes
two_queued_indexed = refl

index-IsOrdered_example :
    IsOrdered (λ k. (slot_at two_queued k).value) (index two_queued).1
    × ((k : ℕ)
        → count k (index two_queued).1 ≡ (
            if is_held (slot_at two_queued k) && is_queued (slot_at two_queued k).value
            then 1
            else 0))
index-IsOrdered_example = index-IsOrdered two_queued two_queued_indexed
