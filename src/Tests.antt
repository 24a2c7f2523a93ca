-- ===== src/Tests.antt =====
-- The theorems at concrete inputs, and runs of the model on inputs of the repository's own tests.
mod Codecs
mod EventCodec
mod ValueCodec
mod Serializer
mod RunState
mod Redaction
mod Records
mod Remote
mod Sse
mod Policy
mod Updates
mod Credentials
mod Requests
mod Protocol
mod History
mod Scrub
mod Convergence
