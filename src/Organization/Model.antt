-- ===== src/Organization/Model.antt =====
-- The rows that the organisation service reads and writes, the calls that it makes for their
-- effect, and what answers it: the database client, Keycloak, the other services.
pub mod Rows
pub mod World
