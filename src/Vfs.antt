-- ===== src/Vfs.antt =====
-- The virtual file system of kernel/kern/fs/vfs.c.
pub mod Inode
pub mod Perm
pub mod Mount
pub mod Driver
pub mod Resolve
pub mod File
pub mod Names
pub mod Tests
