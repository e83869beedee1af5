-- ===== src/NodeEventStore/Index/Contents.antt =====
-- What stands in the queue that `rebuildIndex` of lib/node_event_store/src/node_event_store.h leaves.
use argus_redline.Base.{
  ℕ, zero, suc, ◌+◌, ◌<◌, ◌≡◌, refl, inl, inr, ◌∙◌, arith, Bool, true, false, ◌&&◌, List, [], ◌∷◌,
  ◌++◌, ◌==◌, if◌then◌else◌, Bool-cases,
}
use argus_redline.NodeEventStore.{SlotState, slot_at, is_queued}
use argus_redline.NodeEventStore.Index.{is_held, clashes, collect, sort, index, sorted_index}
use argus_redline.NodeEventStore.Index.Order.{
  count, is_wanted, count-append, IsOrdered, sort-IsOrdered, count-sort,
}

abbrev number : Bool → ℕ
number true = 1
number false = 0

-- The queue with a slot put at its end, if it is wanted.
abbrev extended : Bool → ℕ → List ℕ → List ℕ
extended wanted slot queue = if wanted then queue ++ (slot ∷ []) else queue

count-extended :
    (wanted : Bool) (slot : ℕ) (queue : List ℕ)
    → count slot (extended wanted slot queue) ≡ count slot queue + number wanted
count-extended true slot queue = ground (arith, count-append slot queue (slot ∷ []))
count-extended false slot queue = omega arith

count-extended_other :
    (wanted : Bool) (slot k : ℕ) (queue : List ℕ)
    → (k == slot) ≡ false
    → count k (extended wanted slot queue) ≡ count k queue
count-extended_other true slot k queue h = ground (arith, count-append k queue (slot ∷ []))
count-extended_other false slot k queue h = refl

collect-rest :
    (s : SlotState) (slots before : List SlotState) (slot : ℕ) (queue : List ℕ)
    → (collect (s ∷ slots) before slot queue).0 ≡ true
    → collect (s ∷ slots) before slot queue
      ≡ collect slots (before ++ (s ∷ [])) (slot + 1) (extended (is_wanted s) slot queue)
unfolding collect
collect-rest s slots before slot queue h = elim (Bool-cases (is_held s && clashes s.value before)) [
  | inl e ↦ absurd (let no : false ≡ true = rw (e) at h in cc (no))
  | inr e ↦ rw (e) refl
]

-- Slots before the given one are not added.
collect-earlier :
    (slots before : List SlotState) (slot : ℕ) (queue : List ℕ)
    → (collect slots before slot queue).0 ≡ true
    → (k : ℕ) → k < slot
    → count k (collect slots before slot queue).1 ≡ count k queue
unfolding collect
collect-earlier [] before slot queue h k l = refl
collect-earlier (s ∷ slots) before slot queue h k l =
    let same = collect-rest s slots before slot queue h in
    let next = extended (is_wanted s) slot queue in
    rw (same) (
      collect-earlier slots (before ++ (s ∷ [])) (slot + 1) next (rw (same) at h) k
        (omega (arith, l))
      ∙ count-extended_other (is_wanted s) slot k queue (ground (arith, l)))

collect-count :
    (slots before : List SlotState) (slot : ℕ) (queue : List ℕ)
    → (collect slots before slot queue).0 ≡ true
    → (j : ℕ)
    → count (slot + j) (collect slots before slot queue).1
      ≡ count (slot + j) queue + number (is_wanted (slot_at slots j))
unfolding collect
collect-count [] before slot queue h j = omega arith
collect-count (s ∷ slots) before slot queue h zero =
    let same = collect-rest s slots before slot queue h in
    let next = extended (is_wanted s) slot queue in
    let there : slot + 0 ≡ slot = omega arith in
    rw (there, same)
      (collect-earlier slots (before ++ (s ∷ [])) (slot + 1) next (rw (same) at h) slot
          (omega arith)
        ∙ count-extended (is_wanted s) slot queue)
collect-count (s ∷ slots) before slot queue h (suc j) =
    let same = collect-rest s slots before slot queue h in
    let next = extended (is_wanted s) slot queue in
    let there : slot + suc j ≡ (slot + 1) + j = omega arith in
    let rest = collect-count slots (before ++ (s ∷ [])) (slot + 1) next (rw (same) at h) j in
    let other = count-extended_other (is_wanted s) slot ((slot + 1) + j) queue (ground arith) in
    rw (there, same) (omega (arith, rest, other))

-- Where rebuildIndex meets no identity twice, the queue has exactly the slots that are present and queued,
-- each of them once, in the order of their identities, the oldest first.
pub index-IsOrdered :
    (slots : List SlotState)
    → (index slots).0 ≡ true
    → IsOrdered (λ k. (slot_at slots k).value) (index slots).1
      × ((k : ℕ)
          → count k (index slots).1
            ≡ (if is_held (slot_at slots k) && is_queued (slot_at slots k).value then 1 else 0))
unfolding index
index-IsOrdered slots h = go (collect slots [] 0 []) h (λ e k. collect-count slots [] 0 [] e k)
  where
    go :
        (q : Bool × List ℕ)
        → (sorted_index slots q).0 ≡ true
        → (q.0 ≡ true
            → (k : ℕ) → count (0 + k) q.1 ≡ count (0 + k) [] + number (is_wanted (slot_at slots k)))
        → IsOrdered (λ k. (slot_at slots k).value) (sorted_index slots q).1
          × ((k : ℕ)
              → count k (sorted_index slots q).1
                ≡ (if is_held (slot_at slots k) && is_queued (slot_at slots k).value then 1 else 0))
    go (true, queue) h c = (
      sort-IsOrdered (λ k. (slot_at slots k).value) queue,
      λ k.
          finish k (is_wanted (slot_at slots k)) (count-sort (λ k. (slot_at slots k).value) k queue)
            (c refl k),
    )
      where
        finish :
            (k : ℕ) (b : Bool)
            → count k (sort (λ k. (slot_at slots k).value) queue) ≡ count k queue
            → count (0 + k) queue ≡ 0 + number b
            → count k (sort (λ k. (slot_at slots k).value) queue) ≡ (if b then 1 else 0)
        finish k true e f = (let same : 0 + k ≡ k = omega arith in e ∙ (rw (same) at f))
        finish k false e f = (let same : 0 + k ≡ k = omega arith in e ∙ (rw (same) at f))
    go (false, queue) h c = absurd (cc (h))
