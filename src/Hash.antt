-- ===== src/Hash.antt =====
-- sf_hashmodule.c and sf_hashmodule.h: a fixed array of buckets, each a circle of nodes, and the
-- two string hashes that the program uses with it.
pub mod Crc
pub mod Bkdr
pub mod Key
pub mod Table
