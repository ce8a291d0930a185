-- ===== src/Http.antt =====
-- http/: requests, the request parser, responses, routes and the server loop.
pub mod Text
pub mod Request
pub mod Parser
pub mod Response
pub mod Server
pub mod Message
