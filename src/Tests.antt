-- ===== src/Tests.antt =====
-- Runs of the model on concrete inputs, and the theorems at concrete inputs.
mod Requests
mod Parsing
mod Answers
mod Connections
mod System
mod Reactors
mod Serving
mod Polling
mod Site
mod Uring
mod Epolls
mod Rings
mod Workers
mod Loads
