-- ===== src/Tests.antt =====
-- Runs of the model on small inputs, and each theorem applied to one.
mod Device
mod Packets
mod Mappings
mod Registries
mod Configs
mod Workers
mod Managers
mod Reloads
mod Curves
mod Ticks
mod Frames
mod Watching
mod Starts
mod Sources
mod Endings
mod Deliveries
mod Brokers
mod Requests
