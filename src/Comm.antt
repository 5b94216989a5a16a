-- ===== src/Comm.antt =====
-- The communication layer, comm/*.c.
pub mod Node
pub mod Wireup
pub mod Barrier
pub mod Packet
pub mod Local
pub mod Remote
pub mod Stream
pub mod Delivery
pub mod Api
pub mod Layers
