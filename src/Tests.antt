-- ===== src/Tests.antt =====
-- Runs of the models at concrete inputs, which show that the conditions of the theorems can hold.
mod Core
mod Threads
mod Net
mod Ws
mod Http
mod Chat
mod Pipeline
mod Rooms
mod Multi
mod Message
