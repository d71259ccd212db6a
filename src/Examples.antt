-- ===== src/Examples.antt =====
-- Runs of the model on concrete inputs.
mod Bus
mod Handlers
mod P2p
mod Names
mod Login
mod Broker
mod Maps
mod Devices
