-- ===== src/Tests.antt =====
-- Runs of the theorems on concrete inputs.
mod Sample
mod Buffer
mod Streams
mod Encryption
mod Texts
mod Maps
mod Attributes
mod Namespace
mod Mount
mod Keys
mod Expire
mod Seeking
mod Rewriting
mod Files
