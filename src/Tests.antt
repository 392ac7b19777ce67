-- ===== src/Tests.antt =====
-- Runs on concrete states, and instances of the theorems at states that meet their conditions.
mod Descriptors
mod Files
mod Frames
mod Input
mod Tables
mod Tasks
mod Pipes
mod Semaphores
mod Codec
mod Network
mod Screen
mod Memory
mod Mail
