-- ===== src/Tests.antt =====
-- Runs of the model on concrete inputs, one for each result with parameters.
mod Data
mod Names
mod Caching
mod Filtering
mod Serving
mod Signing
mod Zones
mod Exchange
