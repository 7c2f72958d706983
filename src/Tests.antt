-- ===== src/Tests.antt =====
-- The theorems applied to small concrete states, and runs of the model.
mod Data
mod Task
mod Kernel
mod Queue
mod Calls
mod Resume
mod Streams
mod Macros
mod Exchange
mod Multiple
