-- ===== src/EndToEnd.antt =====
-- A client and a server together (protobuf_message_client_impl.h, protobuf_message_server_impl.h):
-- a request goes from the one to the other, and its response back to the handle.
pub mod Reading
pub mod Writing
pub mod Datagrams
pub mod Remaining
