-- ===== src/Ingest/Bus.antt =====
-- The bounded channel of tokio that connects the tasks, `tokio::sync::mpsc`, as an interface.
use percept.Prelude.{List, [], ◌∷◌, ◌++◌, ◌≡◌, ◌≢◌, ◌⊎◌, inl, inr, refl}

-- The outcome of `Sender::try_send`.
pub data SendResult : Type 0 where
  sent full closed : SendResult

-- A channel holds the messages that wait, in their order. A message that is sent comes behind them; one
-- that is not leaves the channel as it was.
pub record Bus (M : Type 0) : Type 1 where
  pub Chan : Type 0
  pub waiting : Chan → List M
  pub try_send : Chan → M → Chan × SendResult
  pub sent_lem :
      (c : Chan) (m : M) → (try_send c m).1 ≡ sent → waiting (try_send c m).0 ≡ waiting c ++ m ∷ []
  pub not_sent_lem :
      (c : Chan) (m : M) → (try_send c m).1 ≢ sent → waiting (try_send c m).0 ≡ waiting c

pub SendResult-cases : (r : SendResult) → (r ≡ sent) ⊎ ((r ≡ full) ⊎ (r ≡ closed))
SendResult-cases sent = inl refl
SendResult-cases full = inr (inl refl)
SendResult-cases closed = inr (inr refl)
