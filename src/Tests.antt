-- ===== src/Tests.antt =====
-- The theorems at concrete data: small requests, packets of both programs, and short runs.
mod Transport
mod Links
mod Networks
mod Programs
mod Sessions
mod Handlers
mod Exchange
mod Tcp
mod Commands
mod Turns
