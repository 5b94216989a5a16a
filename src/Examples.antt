-- ===== src/Examples.antt =====
-- Runs of the models at concrete inputs, and the theorems at inputs that meet their hypotheses.
pub mod Memory
pub mod Entries
pub mod Locality
pub mod Wire
pub mod Barriers
pub mod Queues
pub mod Puts
pub mod Sockets
pub mod Streams
pub mod Delivery
pub mod Runtime
pub mod Layers
pub mod Startup
pub mod Collective
pub mod Handshakes
