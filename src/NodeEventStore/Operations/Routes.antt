-- ===== src/NodeEventStore/Operations/Routes.antt =====
-- Several calls of lib/node_event_store/src/node_event_store.h, one after the other.
use argus_redline.Base.{ℕ, sym, subst, inl, inr, List}
use argus_redline.EventProtocol.{Identity}
use argus_redline.EventRecords.NodeRecord.{NodeRecord}
use argus_redline.NodeEventStore.{SlotState}
use argus_redline.NodeEventStore.Interface.{Storage}
use argus_redline.NodeEventStore.Commits.{Machine}
use argus_redline.NodeEventStore.Operations.Life.{
  Kind, Only, Moves, created, ended, reclaimed, released, aged, armed, HasMoved,
}
use argus_redline.NodeEventStore.Operations.Transitions.{Call, Makes, Given, run, run-HasMoved}

-- Whatever the identity.
abbrev pub Any : Identity → Type 0
Any i = Unit {0}

Moves-Any :
    (G : Identity → Type 0) (old : NodeRecord) (k : Kind) (r : NodeRecord)
    → Moves G old k r
    → Moves Any old k r
Moves-Any G old _ _ (created input i f v g) = created input i f v tt
Moves-Any G old _ _ (ended state q to) = ended state q to
Moves-Any G old _ _ (reclaimed t) = reclaimed t
Moves-Any G old _ _ (released q) = released q
Moves-Any G old _ _ (aged remaining q p l) = aged remaining q p l
Moves-Any G old _ _ (armed q l) = armed q l

module _ (May : Kind → ℕ → Type 0) where
  pub HasMoved-May :
      (G : Identity → Type 0) (P : Kind → ℕ → Type 0) (x y : List SlotState)
      → HasMoved G P x y
      → ((k : Kind) (slot : ℕ) → P k slot → May k slot)
      → HasMoved Any May x y
  HasMoved-May G P x y (inl same) h = inl same
  HasMoved-May G P x y (inr (slot, k, r, p, m, w)) h =
      inr (slot, k, r, h k slot p, Moves-Any G _ k r m, w)

  pub only :
      (kind : Kind) (slot : ℕ) → May kind slot → (k : Kind) (j : ℕ) → Only kind slot k j → May k j
  only kind slot h k j (same, at) =
      subst (λ i. May i j) (sym same) (subst (λ i. May kind i) (sym at) h)

  -- The slots become others by moves along the life of an Event, of the kinds that are allowed where
  -- they are made.
  pub data Route (slots : List SlotState) : List SlotState → Type 0 where
    stay : Route slots slots
    follow :
        (slots' slots'' : List SlotState)
        → Route slots slots'
        → HasMoved Any May slots' slots''
        → Route slots slots''

  pub Route-trans : (x y z : List SlotState) → Route x y → Route y z → Route x z
  Route-trans x y _ p stay = p
  Route-trans x y _ p (follow u z q h) = follow u z (Route-trans x y u p q) h

  pub Route-step : (x y : List SlotState) → HasMoved Any May x y → Route x y
  Route-step x y h = follow x y stay h

  -- A call of the store whose kind of move is allowed.
  pub run-May :
      (storage : Storage) (call : Call) (s : Machine storage)
      → ((k : Kind) (slot : ℕ) → Makes call k slot → May k slot)
      → HasMoved Any May s.store.slots (run storage call s).store.slots
  run-May storage call s h =
      HasMoved-May (Given storage s) (Makes call) s.store.slots (run storage call s).store.slots
        (run-HasMoved storage call s) h
