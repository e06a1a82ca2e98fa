-- ===== src/Net/Forward/Steady.antt =====
-- A pump on connections that do not fail, wherever it stops: it has not failed, and what it has read
-- and written are whole records.
pub mod Ups
pub mod Downs
