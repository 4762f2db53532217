-- ===== src/Examples.antt =====
-- The theorems at concrete inputs, and what they share: a host, a Redis, a connection and codecs that
-- are small functions.
mod Memory
mod Host
mod Wire
mod Sessions
mod Accounts
mod Sandboxes
mod Threads
mod Requests
