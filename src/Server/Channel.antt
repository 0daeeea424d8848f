-- ===== src/Server/Channel.antt =====
-- The sending half of a bounded channel of tokio, as rkvm-server/src/server.rs uses it. Whether a
-- message is accepted depends on the receiver, which runs concurrently: `answers` says it for each
-- attempt and is left open. `sent` are the accepted messages.
use rkvm.Prelude.{ℕ, suc, List, [], ◌∷◌, ◌++◌, Bool, if◌then◌else◌}

pub data Answer : Type 0 where
  accepted closed full : Answer

pub record Sender (A : Type 0) : Type 0 where
  pub sent : List A
  pub asked : ℕ
  pub answers : ℕ → Answer

unfoldable pub try_send : {A : Type 0} → Sender A → A → Sender A × Answer
try_send s a = elim (s.answers s.asked) [
  | accepted ↦ (record s { sent = s.sent ++ a ∷ []; asked = suc s.asked }, accepted)
  | closed ↦ (record s { asked = suc s.asked }, closed)
  | full ↦ (record s { asked = suc s.asked }, full)
]

-- `send`, which waits while the channel is full: delivered, or closed.
abbrev pub send : {A : Type 0} → Bool → Sender A → A → Sender A
send delivered s a = if delivered then record s { sent = s.sent ++ a ∷ [] } else s
