-- ===== src/Tests.antt =====
-- Runs at concrete inputs, and each theorem that has hypotheses at inputs that meet them.
mod Arrays
mod Frames
mod Lists
mod Logs
mod Pools
mod Tables
mod Workers
mod Recycling
mod Servers
mod Owners
mod Conversations
mod Sockets
mod Strings
mod Starts
