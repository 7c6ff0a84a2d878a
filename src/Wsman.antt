-- ===== src/Wsman.antt =====
-- The package `wsman`: the WS-Management protocol over HTTP.
pub mod Instances
pub mod Transport
pub mod Enumeration
pub mod Pool
pub mod Recorder
pub mod Client
pub mod Envelope
pub mod Requests
pub mod Responses
pub mod Output
