-- ===== src/Vfs.antt =====
-- os161/kern/fs/vfs: the VFS layer's operations on the current directory and on pathnames, over the
-- vnodes of vnode.c. The file systems below are the argument `ops`.
pub mod Cwd
pub mod Lookup
pub mod Path
pub mod Contract
pub mod Walk
pub mod Balance
pub mod Open
pub mod Chdir
pub mod Boot
mod OneDir
mod Tests
