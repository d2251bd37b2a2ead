-- ===== src/Routes/Zones.antt =====
-- app/routes/zones.py: the routes that change the database, the validation and the exports of a zone.
pub mod Requests
pub mod Records
pub mod Creating
pub mod Reverse
pub mod Validate
pub mod Exchange
pub mod Dispatch
