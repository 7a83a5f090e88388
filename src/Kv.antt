-- ===== src/Kv.antt =====
-- kvcluster/kvserver and the gRPC services: the key-value store on top of the consensus node.
pub mod Models
pub mod Server
pub mod Service
pub mod Begin
pub mod Codec
pub mod Once
pub mod Register
pub mod History
pub mod Request
