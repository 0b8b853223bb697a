-- ===== src/Claims.antt =====
-- The claims of a token (crypto.rs, `Claims`).
use smqtt.Prelude.{ℕ, List, Text}

pub record Claims : Type 0 where
  pub sub : Text
  pub dev : Text
  pub exp : ℕ
  pub iat : ℕ
  pub pub_topics : List Text
  pub sub_topics : List Text
  pub notify_topic : Text
