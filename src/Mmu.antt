-- ===== src/Mmu.antt =====
-- Memory management: kernel/arch/amd64/amd64/mmu.c.
pub mod Frames
pub mod Areas
pub mod Words
mod Tests
pub mod Tables
pub mod Fault
pub mod Pages
