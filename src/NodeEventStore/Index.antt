-- ===== src/NodeEventStore/Index.antt =====
-- `rebuildIndex` of lib/node_event_store/src/node_event_store.h: the queue of the slots that are queued,
-- in the order of their identities.
pub mod Order
pub mod Contents
use argus_redline.Base.{
  ℕ, ◌+◌, Bool, true, false, not, ◌&&◌, ◌||◌, List, [], ◌∷◌, ◌++◌, ltb, ◌==◌, if◌then◌else◌,
}
use argus_redline.EventRecords.NodeRecord.{NodeRecord}
use argus_redline.NodeEventStore.{SlotState, slot_at, is_free, is_queued}

unfoldable pub identity_less : NodeRecord → NodeRecord → Bool
identity_less left right =
    ltb left.event_epoch right.event_epoch
    || ((left.event_epoch == right.event_epoch) && ltb left.event_id right.event_id)

abbrev pub is_held : SlotState → Bool
is_held s = s.present && not (is_free s.value)

abbrev pub same_event : NodeRecord → NodeRecord → Bool
same_event x y = (x.event_epoch == y.event_epoch) && (x.event_id == y.event_id)

-- The loop over the slots before this one.
unfoldable pub clashes : NodeRecord → List SlotState → Bool
clashes r [] = false
clashes r (s ∷ before) = (is_held s && same_event s.value r) || clashes r before

-- The first loop: whether no identity is met twice, and the queue that it leaves.
unfoldable pub collect : List SlotState → List SlotState → ℕ → List ℕ → Bool × List ℕ
unfolding clashes
collect [] before slot queue = (true, queue)
collect (s ∷ slots) before slot queue =
    let rest =
      collect slots (before ++ (s ∷ [])) (slot + 1)
        (if is_held s && is_queued s.value then queue ++ (slot ∷ []) else queue) in
    if is_held s && clashes s.value before then (false, queue) else rest

-- The inner loop of the insertion, which goes from the end of the sorted part to its front; the sorted
-- part has its end first.
unfoldable pub insert_back : (ℕ → NodeRecord) → ℕ → List ℕ → List ℕ
insert_back value x [] = x ∷ []
insert_back value x (y ∷ sorted) =
    if identity_less (value x) (value y) then y ∷ insert_back value x sorted else x ∷ (y ∷ sorted)

unfoldable pub sort_back : (ℕ → NodeRecord) → List ℕ → List ℕ → List ℕ
sort_back value [] sorted = sorted
sort_back value (x ∷ queue) sorted = sort_back value queue (insert_back value x sorted)

unfoldable pub reverse_onto : List ℕ → List ℕ → List ℕ
reverse_onto [] ys = ys
reverse_onto (x ∷ xs) ys = reverse_onto xs (x ∷ ys)

unfoldable pub sort : (ℕ → NodeRecord) → List ℕ → List ℕ
unfolding sort_back reverse_onto
sort value queue = reverse_onto (sort_back value queue []) []

abbrev pub sorted_index : List SlotState → Bool × List ℕ → Bool × List ℕ
sorted_index slots (true, queue) = (true, sort (λ k. (slot_at slots k).value) queue)
sorted_index slots (false, queue) = (false, queue)

-- Whether there is an index, and the queue.
unfoldable pub index : List SlotState → Bool × List ℕ
unfolding collect sort
index slots = sorted_index slots (collect slots [] 0 [])
