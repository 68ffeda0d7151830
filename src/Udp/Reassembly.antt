-- ===== src/Udp/Reassembly.antt =====
-- zcm/transport/udp: the fragments of a message come in any order, and give the message again.
pub mod Bytes
pub mod Placing
pub mod Storing
pub mod Complete
pub mod Lookup
pub mod Pooled
pub mod Wire
pub mod Cutting
pub mod Delivery
