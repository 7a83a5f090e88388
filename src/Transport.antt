-- ===== src/Transport.antt =====
-- The calls between nodes over gRPC (kvcluster/transport/client_raft_grpc.hpp,
-- kvcluster/service_raft_grpc.hpp), and the transports of a node (kvcluster/main.cpp).
pub mod Messages
pub mod Service
pub mod Client
pub mod Loopback
pub mod Peers
