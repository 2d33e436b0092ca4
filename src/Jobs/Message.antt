-- ===== src/Jobs/Message.antt =====
-- jobs/queue.go: messages.
use elgon.Base.Text.{Str}

-- `Message`
pub record Message : Type 0 where
  pub name : Str
  pub payload : Str
