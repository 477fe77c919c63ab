-- ===== src/Examples.antt =====
-- The theorems at concrete inputs, on which their assumptions hold.
mod Data
mod Packets
mod Exchange
mod Rotation
mod Answers
mod Connections
mod Query
mod Configs
mod Running
mod Measuring
mod Session
