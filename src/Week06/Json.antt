-- ===== src/Week06/Json.antt =====
-- The JSON library of week06.
pub mod Value
pub mod Interface
pub mod Tokenizer
pub mod Parser
pub mod Serializer
pub mod RoundTrip
