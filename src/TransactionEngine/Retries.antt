-- ===== src/TransactionEngine/Retries.antt =====
-- The Hub's retries and timeouts (`HubTransactionState` of
-- lib/transaction_engine/src/transaction_engine.h).
use argus_redline.Base.{
  ℕ, zero, suc, ◌+◌, ◌^◌, ◌≤◌, ◌<◌, ◌≡◌, refl, arith, false, List, [], ◌∷◌, ◌++◌, ltb, leb,
  if◌then◌else◌, replicate, ap,
}
use argus_redline.Base.Words.{IsU32, u8, u32, sub_u32}
use argus_redline.TransactionEngine.{
  HubTransactionState, HubTransactionAction, no_action, retransmit, transaction_failed,
  begin_acknowledgment_wait, acknowledgment_wait_action, attempt_failed,
}

-- What `n` successive failures of an attempt ask for.
pub failures : ℕ → HubTransactionState → List HubTransactionAction
failures zero s = []
failures (suc n) s =
    let (action, s') = attempt_failed s in let rest = failures n s' in action ∷ rest

attempt_failed_retries :
    (s : HubTransactionState)
    → s.retry_count < s.maximum_retries
    → s.maximum_retries < 256
    → attempt_failed s
      ≡ (retransmit, record s { awaiting_acknowledgment = false; retry_count = s.retry_count + 1 })
unfolding attempt_failed
attempt_failed_retries s h k =
    let e : u8 (s.retry_count + 1) ≡ s.retry_count + 1 = omega arith in ground (arith, e, h)

attempt_failed_gives_up :
    (s : HubTransactionState)
    → s.maximum_retries ≤ s.retry_count
    → attempt_failed s ≡ (transaction_failed, record s { awaiting_acknowledgment = false })
unfolding attempt_failed
attempt_failed_gives_up s h = ground arith

-- With `k` retries left, the next `k` failures each ask for a retransmission, and the one after them
-- ends the transaction.
pub failures_lem :
    (k : ℕ) (s : HubTransactionState)
    → s.retry_count + k ≡ s.maximum_retries
    → s.maximum_retries < 256
    → failures (suc k) s ≡ replicate k retransmit ++ (transaction_failed ∷ [])
unfolding failures
failures_lem zero s h m = rw (attempt_failed_gives_up s (omega arith)) refl
failures_lem (suc k) s h m = rw (attempt_failed_retries s (omega arith) m) (
    ap (λ (xs : List HubTransactionAction). retransmit ∷ xs)
      (failures_lem k
        (record s { awaiting_acknowledgment = false; retry_count = s.retry_count + 1 })
        (omega arith) m))

elapsed_lem :
    (now timeout d : ℕ)
    → IsU32 now
    → timeout ≤ 2 ^ 31
    → d < 2 ^ 31
    → leb 0x80000000 (sub_u32 (u32 (now + d)) (u32 (now + timeout))) ≡ ltb d timeout
elapsed_lem now timeout d h k l = ground arith

-- Across the wrap of the 32-bit clock: in the 2^31 milliseconds after the wait has begun, with a timeout of at most 2^31, there is
-- nothing to do before the timeout; from then on the answer is what a failed attempt asks for.
pub acknowledgment_wait_action_lem :
    (s : HubTransactionState) (now d : ℕ)
    → IsU32 now
    → s.acknowledgment_timeout_ms ≤ 2 ^ 31
    → d < 2 ^ 31
    → acknowledgment_wait_action (begin_acknowledgment_wait now s) (u32 (now + d))
      ≡ (if ltb d s.acknowledgment_timeout_ms then no_action else (attempt_failed s).0)
unfolding acknowledgment_wait_action begin_acknowledgment_wait attempt_failed
acknowledgment_wait_action_lem s now d h k l =
    rw (elapsed_lem now s.acknowledgment_timeout_ms d h k l) (ground arith)
