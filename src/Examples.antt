-- ===== src/Examples.antt =====
-- The servers of examples/: what their handlers do, composed with the router of the framework.
-- Auth is examples/auth-middleware/server/main.go, Echo examples/echo/server/main.go, Chatroom
-- examples/chatroom/server/main.go. Starting and
-- stopping them, and their management endpoints, is not modelled.
pub mod Auth
pub mod Echo
pub mod Chatroom
mod Tests
