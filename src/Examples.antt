-- ===== src/Examples.antt =====
-- Tests of the definitions and applications of the theorems at concrete values.
mod Ledger
mod Store
mod Delivery
mod Events
mod Records
mod Storage
mod Identity
mod Link
mod Host
mod Input
mod Transport
