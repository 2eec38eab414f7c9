-- ===== src/Tests.antt =====
-- Runs of the model on concrete inputs, and each result of the library applied to one.
mod Numbers
mod Events
mod Outbox
mod People
mod Network
mod Statements
mod Sessions
mod Encodings
mod Blobs
mod Hosts
mod Listed
mod Published
mod Canonical
