-- ===== src/Udp.antt =====
-- zcm/transport/udp: the pool of messages that wait for fragments, receiving a fragment, and sending.
pub mod MemPool
pub mod Pool
pub mod Recv
pub mod Send
pub mod Reassembly
pub mod Read
