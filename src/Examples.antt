-- ===== src/Examples.antt =====
-- The theorems at concrete inputs, and tests of the definitions.
mod Messages
mod Participants
mod Network
mod Tables
mod Descriptors
mod Streams
mod Devices
mod Local
mod Calls
mod Chatting
mod Guilds
mod Microphone
mod Client
