-- ===== src/Drive.antt =====
-- raftdrive: the HTTP server of the drive, from its routes down to the key-value cluster and S3.
pub mod Effect
pub mod Client
pub mod Answers
pub mod Reach
pub mod Metadata
pub mod Keys
pub mod Faithful
pub mod Upload
pub mod Documents
pub mod Fs
pub mod Handlers
pub mod Refusals
