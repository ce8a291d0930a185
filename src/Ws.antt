-- ===== src/Ws.antt =====
-- ws/: the WebSocket protocol over a connection, and the chat room.
pub mod WebSocket
pub mod ChatRoom
