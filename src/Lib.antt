-- ===== src/Lib.antt =====
-- A model of the message, storage and link layers of the firmware, with the theorems that make them
-- correct. A Hub and a Node exchange packets over a radio link; the Node makes Events, keeps them in
-- non-volatile storage and delivers them; the Hub admits them, and a host talks to a Hub or a Node over
-- a serial link.
--
-- The parts, from the bottom, and the files that model them:
--
-- Base: tests, arrays of bytes, machine words and bit operations, with their laws.
-- Protocol: lib/redline_protocol/src/redline_protocol.h, the packets: `encode`, `decode` and the
-- vocabulary of commands. Protocol/RoundTrip proves both directions.
-- EventProtocol: lib/event_protocol/src/event_protocol.h, Events and admission responses as packets:
-- `encode_event` is encodeEvent, `matches_event` is matchesEvent, and so on. EventProtocol/Validity,
-- RoundTrip and Admission prove their theorems.
-- EventRecords: lib/event_storage/src/event_records.h. Crc32 is crc32IsoHdlc; Envelope is
-- validateEnvelope, encodeEnvelope and finishCrc; NodeMetadata, HubMetadata, NodeRecord and HubRecord
-- are the four records; Canonical is validCanonicalEvent.
-- EventStore: lib/event_storage/src/event_store.h, compareGenerations, classifyReadBack and
-- selectCopies, for any format of records.
-- EventIdentity: lib/event_identity/src/event_identity.h, the class Allocator, on EventRecords and
-- EventStore. Interface has MetadataStorage and EntropySource, which the allocator takes as a record
-- of functions on the state of the world. The methods run in a monad of that state and the
-- allocator's, in which an early return with a status is a failed attempt; `commit_metadata` is
-- commitMetadata, `reserve_block` is reserveBlock, `allocate` and `recover` are the public methods.
-- Durable relates the allocator to what the storage keeps over a restart.
-- RuntimeState: lib/runtime_state/src/runtime_state.h, the snapshot of the Events and its counters.
-- HubEventLedger: lib/hub_event_ledger/src/hub_event_ledger.h, the class Ledger, on EventRecords,
-- EventStore and RuntimeState, over its storage as a record of functions (Interface). Commits is
-- commitRecord and commitMetadata, Operations is admit and consume, Recovery is recover. Methods that
-- return a bool are of the monad of Base.Methods. Custody is the abstract view that Operations refine.
-- NodeEventStore: lib/node_event_store/src/node_event_store.h, the class Store, on EventRecords,
-- EventStore, EventIdentity and RuntimeState, over its storage (Interface). Index is rebuildIndex,
-- Commits is writeVerify, commitMutation and commitInitialFree, Operations is enqueue, markFailed,
-- markExpired, reclaim, releaseQueued, checkpointRemaining and armAttempt, Recovery is recover.
-- Operations/Life is the life of an Event in a slot; Transitions and Bounds prove it, and
-- Index/Contents what stands in the queue.
-- NodeEventDelivery: lib/node_event_delivery/src/node_event_delivery.h, on NodeEventStore and
-- EventProtocol. Policy is the class Policy, with the time that Events have left; Controller is the
-- class Controller: Attempts has what its methods share, Service is recover, trackEnqueued and service,
-- Radio the methods from grantTransmit to reclaimTerminal. A step of a method takes what follows it as an
-- argument, as the code returns early where it does not follow. The children named Custody, Turns,
-- Releases, Admission and Calls prove the theorems. Reclamation,
-- ServiceTime and Creation are node_event_reclamation.h, node_event_service_time.h and
-- node_event_creation.h beside it.
-- EventProducers: lib/event_producers/src/event_producers.h, the producers of Events from the button and
-- from sensors, on DeviceInput and NodeEventStore. Gestures proves the theorem.
-- TransactionEngine: lib/transaction_engine/src/transaction_engine.h, on Protocol: the Node's
-- duplicate tracker with evaluateNodeCommand, and the Hub's HubTransactionState with
-- evaluateHubAcknowledgment.
-- HostProtocol: lib/host_protocol/src/host_protocol.h and host_protocol_stream.h. Crc16, Cobs
-- and Frame are crc16CcittFalse, cobsEncode with cobsDecode, and encodeFrame with decodeFrame; Stream
-- is the class StreamParser.
-- HostTransport: lib/host_transport/src/host_transport.h, the class Adapter on HostProtocol, over a
-- byte stream that it takes as a record of functions (Interface); its trace fields are left out.
-- Delivery and Completion prove its theorems.
-- DeviceInput: lib/device_input/src/device_input.h, the class Button; `update` takes one sample.
-- Examples: tests, and the theorems at concrete values.
--
-- Conventions. Numbers are natural numbers, with the wrap of a machine word written out. A pointer that
-- the code tests for null is an option. An output buffer is its capacity, and a call's result is the
-- bytes that it leaves there; an array of a structure is a list of the array's length. An enumeration
-- into which the code casts a number has a constructor for the values without a name, where the code
-- can go on with such a value. A method that changes an object returns the object's next state. The
-- numbers in a structure are not bounded by their type; a theorem that needs the bound has it as a
-- hypothesis.
--
-- Loops are structural recursion on the input, but for two. The one of cobsDecode has the input's
-- length as fuel, and every block takes at least one byte (HostProtocol/Cobs/Fuel). The inner loop of
-- Policy.service has one turn for every minute to be committed, and one more; `settle_all` says
-- whether it came to its own end.
--
-- Not modelled: the messages and the vocabulary of operations of the host protocol, the operations on
-- the wire, settings and capabilities. Of the delivery, the observer is left out, which only counts. Nor
-- are drivers, displays, traces and the main loops modelled, which call the board's libraries.
pub mod Base
pub mod Protocol
pub mod EventProtocol
pub mod EventRecords
pub mod EventStore
pub mod EventIdentity
pub mod TransactionEngine
pub mod HostProtocol
pub mod DeviceInput
pub mod HostTransport
pub mod RuntimeState
pub mod HubEventLedger
pub mod NodeEventStore
pub mod NodeEventDelivery
pub mod EventProducers
pub mod Examples
