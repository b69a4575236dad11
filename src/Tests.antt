-- ===== src/Tests.antt =====
-- Vectors, a configuration and inputs at which the theorems of this library are applied.
mod Vecs
mod Frames
mod Tables
mod Handshakes
mod Connections
mod RadioHandshakes
mod RadioConnections
mod Drivers
mod RadioDrivers
