-- ===== src/Fs.antt =====
-- The file system server: fs/fs.c with user/include/fs.h and fs/serv.h.
pub mod Server
pub mod Block
pub mod File
pub mod Dir
pub mod Path
pub mod Ops
pub mod Serve
pub mod Bitmap
pub mod Names
pub mod Holes
pub mod Lookup
pub mod Mapping
pub mod Sure
pub mod Answers
