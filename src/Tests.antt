-- ===== src/Tests.antt =====
-- Runs of the definitions on fixed inputs, and each theorem at one.
mod Notify
mod Date
mod Floats
mod Json
mod Lock
mod Registry
mod Session
mod ParseArgs
mod Reading
mod Servers
