-- ===== src/NodeEventDelivery/Policy/Turns.antt =====
-- The inner loop of `service` of lib/node_event_delivery/src/node_event_delivery.h ends.
use argus_redline.Base.{
  ℕ, zero, suc, ◌+◌, ◌-◌, ◌*◌, ◌&&◌, ◌<◌, ◌≤◌, ◌≡◌, refl, ap, arith, Bool, true, false, Option,
  none, some, List, [], ◌∷◌, if◌then◌else◌, ltb, leb, get_or, set, inl, inr, Bool-cases,
}
use argus_redline.Base.Methods.{◌>>=◌, return, continue, modify, After, After-bind}
use argus_redline.EventRecords.NodeRecord.{NodeRecord}
use argus_redline.NodeEventStore.Commits
use argus_redline.NodeEventStore.{MutationStatus}
use argus_redline.NodeEventStore.Interface.{Storage}
use argus_redline.NodeEventStore.Operations
use argus_redline.NodeEventDelivery.Policy.{
  SlotRuntime, Status, Machine, fail, change, untracked, put_runtime, is_mutated, mutate,
  commit_minute, settle, settle_all, runtime_at, turns, queued_at, checkpoint_seconds,
  checkpoint_milliseconds,
}

-- A slot that has time to be committed is one of the array.
runtime_at-put_runtime :
    (xs : List SlotRuntime) (slot : ℕ) (t : SlotRuntime)
    → 0 < (get_or xs slot untracked).uncommitted_milliseconds
    → get_or (set xs slot t) slot untracked ≡ t
runtime_at-put_runtime [] slot t h = absurd (omega arith)
runtime_at-put_runtime (x ∷ xs) zero t h = refl
runtime_at-put_runtime (x ∷ xs) (suc slot) t h = runtime_at-put_runtime xs slot t h

module _ (storage : Storage) (slot : ℕ) where
  abbrev uncommitted : Machine storage → ℕ
  uncommitted s = (runtime_at slot s.policy).uncommitted_milliseconds

  -- The policy has stopped, after a failure of the store.
  abbrev pub Halted : Machine storage → Type 0
  Halted t = t.policy.is_ready ≡ false

  mutate-policy :
      (e : Status) (f : Commits.Machine storage → MutationStatus × Commits.Machine storage)
      (s : Machine storage)
      → After (λ u t. t.policy ≡ s.policy) Halted (mutate storage e f s)
  unfolding mutate
  mutate-policy e f s = go (f s.node)
    where
      go :
          (q : MutationStatus × Commits.Machine storage)
          → After
              (λ u t. t.policy ≡ s.policy)
              Halted
              ((if is_mutated q.0 then return tt else fail storage e) (record s { node = q.1 }))
      go (MutationStatus.ok, node) = refl
      go (MutationStatus.storage_failure, node) = refl
      go (MutationStatus.invalid_slot, node) = refl
      go (MutationStatus.invalid_transition, node) = refl
      go (MutationStatus.degraded, node) = refl

  -- After a turn that is not the last, a minute less is to be committed.
  abbrev Shrinks : Machine storage → Bool → Machine storage → Type 0
  Shrinks s true t = uncommitted t + checkpoint_milliseconds ≡ uncommitted s
  Shrinks s false t = Unit

  Shrinks-commit_minute :
      (s t : Machine storage)
      → t.policy ≡ s.policy
      → checkpoint_milliseconds ≤ uncommitted s
      → Shrinks s true (change storage (commit_minute storage slot) t)
  Shrinks-commit_minute s t same h =
      let same_time : uncommitted t ≡ uncommitted s =
        ap (λ p. (runtime_at slot p).uncommitted_milliseconds) same in
      let put =
        runtime_at-put_runtime t.policy.runtime slot
          (record (runtime_at slot t.policy) {
            uncommitted_milliseconds = uncommitted t - checkpoint_milliseconds;
          })
          (omega (arith, same_time)) in
      omega (arith, same_time, ap (λ (r : SlotRuntime). r.uncommitted_milliseconds) put)

  settle-Shrinks :
      (r : Option NodeRecord) (s : Machine storage)
      → After (Shrinks s) Halted (settle storage slot r s)
  unfolding settle
  settle-Shrinks none s = tt
  settle-Shrinks (some r) s =
      elim (Bool-cases (
        ltb checkpoint_seconds r.remaining_active_seconds
        && leb checkpoint_milliseconds (uncommitted s))) [
          | inl e ↦ rw (e) (
              minute
                (mutate storage Status.checkpoint_failure
                  (Operations.checkpoint_remaining storage slot
                    (r.remaining_active_seconds - checkpoint_seconds))
                  s)
                (mutate-policy Status.checkpoint_failure
                  (Operations.checkpoint_remaining storage slot
                    (r.remaining_active_seconds - checkpoint_seconds))
                  s)
                (ground arith))
          | inr e ↦
              rw (e) (elim (Bool-cases (leb (r.remaining_active_seconds * 1000) (uncommitted s))) [
                | inl f ↦ rw (f) (
                    ended
                      (mutate storage Status.expiry_failure (Operations.mark_expired storage slot)
                        s)
                      (mutate-policy Status.expiry_failure (Operations.mark_expired storage slot)
                        s))
                | inr f ↦ rw (f) tt
              ])
        ]
    where
      minute :
          (q : Option (Unit {0}) × Machine storage)
          → After (λ u t. t.policy ≡ s.policy) Halted q
          → checkpoint_milliseconds ≤ uncommitted s
          → After (Shrinks s) Halted (
              continue q.0
                (λ _. modify (change storage (commit_minute storage slot)) >>= λ _. return true)
                q.1)
      minute (some u, t) same h = Shrinks-commit_minute s t same h
      minute (none, t) same h = same

      ended :
          (q : Option (Unit {0}) × Machine storage)
          → After (λ u t. t.policy ≡ s.policy) Halted q
          → After (Shrinks s) Halted (
              continue q.0
                (λ _. modify (change storage (put_runtime slot untracked)) >>= λ _. return false)
                q.1)
      ended (some u, t) same = tt
      ended (none, t) same = same

  -- The loop came to its own end.
  abbrev pub Finished : Bool → Machine storage → Type 0
  Finished finished t = finished ≡ true

  settle_all_ends :
      (n : ℕ) (s : Machine storage)
      → uncommitted s < checkpoint_milliseconds * n
      → After Finished Halted (settle_all storage n slot s)
  unfolding settle_all
  settle_all_ends zero s h = absurd (omega arith)
  settle_all_ends (suc n) s h =
      After-bind (Shrinks s) Finished Halted (λ s. settle storage slot (queued_at storage slot s) s)
        (λ again. if again then settle_all storage n slot else return true) s
        (settle-Shrinks (queued_at storage slot s) s) (go (λ t i. settle_all_ends n t i))
    where
      go :
          ((t : Machine storage)
            → uncommitted t < checkpoint_milliseconds * n
            → After Finished Halted (settle_all storage n slot t))
          → (again : Bool) (t : Machine storage) → Shrinks s again t
          → After Finished Halted ((if again then settle_all storage n slot else return true) t)
      go next true t less = next t (omega (arith, less, h))
      go next false t less = refl

  -- With the turns that service gives it, the inner loop never runs out of turns, whatever the storage
  -- answers: it comes to its own end, or it returns early with the failure of a change of the store and leaves
  -- the policy not ready.
  pub settle_all-turns :
      (s : Machine storage)
      → After Finished Halted (settle_all storage (turns storage slot s) slot s)
  settle_all-turns s = settle_all_ends (turns storage slot s) s (omega arith)
