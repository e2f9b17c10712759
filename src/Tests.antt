-- ===== src/Tests.antt =====
-- Concrete inputs: the theorems at inputs that exercise the code, and runs of it.
mod Fixture
mod Sending
mod Reading
mod Relaying
mod Connecting
mod Writing
mod Calling
mod Serving
mod Spending
