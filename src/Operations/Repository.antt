-- ===== src/Operations/Repository.antt =====
-- The persistence of order operations: src/agent/operations/repository.py, postgres_repository.py, and
-- the constraints of src/agent/sql/migrations/0004_order_operations.sql and
-- 0007_provider_messaging.sql. A table is the list of its rows; a write is a function from the tables
-- to the tables after the transaction, or to the error that rolls it back.
pub mod Tables
pub mod Constraints
pub mod Writes
pub mod Rows
pub mod Queue
