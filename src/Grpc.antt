-- ===== src/Grpc.antt =====
-- What handlers and clients see of gRPC: messages, the status that a handler leaves in its
-- `context`, and what a client's stub makes of the two. The runtime itself is not modelled.
pub mod Messages
pub mod Call
pub mod Client
