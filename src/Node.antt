-- ===== src/Node.antt =====
-- plugin/node/index.ts, the process of the RTC node. `Args` is its command line, `Print` what the
-- command line means.
pub mod Args
pub mod Commands
pub mod Replies
pub mod Late
pub mod Print
