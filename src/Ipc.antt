-- ===== src/Ipc.antt =====
-- The programs of ipc-code: processes that talk through shared memory, pipes and sockets.
pub mod SharedMemory
pub mod FileTransfer
pub mod Pipes
pub mod Fifo
