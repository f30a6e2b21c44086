-- ===== src/Pagination.antt =====
-- Keyset pagination: backend/app/core/pagination.py.
pub mod Bytes
pub mod Base64
pub mod Cursor
pub mod RoundTrip
pub mod Keyset
pub mod Limit
pub mod Walk
