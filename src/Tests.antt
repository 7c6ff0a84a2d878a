-- ===== src/Tests.antt =====
-- Runs of the models, and the theorems at concrete inputs.
mod CimTag
mod Instances
mod Hosts
mod Protocol
mod Texts
mod Devices
mod Recordings
mod Clients
mod Envelopes
