-- ===== src/Admission/Slots.antt =====
-- What src/admission.rs relies on of `tokio::sync::Semaphore`.
use otel_logger.Prelude.{ℕ, suc, ◌≡◌, Option, none, some}

-- `available` counts the free permits: `try_acquire_owned` takes one, and fails exactly when there
-- is none; dropping a permit gives it back.
pub record Semaphore : Type 1 where
  pub Slots : Type 0
  pub available : Slots → ℕ
  pub create : ℕ → Slots
  pub try_acquire : Slots → Option Slots
  pub release : Slots → Slots
  pub available-create : (n : ℕ) → available (create n) ≡ n
  pub acquired : (s t : Slots) → try_acquire s ≡ some t → available s ≡ suc (available t)
  pub exhausted : (s : Slots) → try_acquire s ≡ none → available s ≡ 0
  pub available-release : (s : Slots) → available (release s) ≡ suc (available s)
