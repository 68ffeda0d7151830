-- ===== src/Tests.antt =====
-- Runs of the model on concrete inputs, and the theorems at inputs that meet their hypotheses.
mod CircBufferTests
mod SerialTests
mod QueueTests
mod ThreadsafeTests
mod TrackerTests
mod UdpTests
mod UdpReassemblyTests
mod UdpReadTests
mod CoretypesTests
mod EventlogTests
mod NonblockingTests
mod UrlTests
mod TokenizeTests
mod StructHashTests
mod BlockingTests
mod MemPoolTests
mod BufferPoolTests
mod CanTests
