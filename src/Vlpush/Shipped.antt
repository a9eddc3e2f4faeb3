-- ===== src/Vlpush/Shipped.antt =====
-- Where the lines of internal/vlpush/vlpush.go go.
use speedtest_tracker.Base.{ℕ, ◌+◌, ◌≤◌, ◌<◌, ◌≡◌, List, [], ◌∷◌, length}
use speedtest_tracker.Vlpush.{queue_size_of, batch_size_of, Shipper}

abbrev pub total {ℓ} : {A : Type ℓ} → List (List A) → ℕ
total [] = 0
total (b ∷ bs) = length b + total bs

-- Any two errors that were logged one after the other are half a minute apart.
abbrev pub AreSpaced : List ℕ → Type 0
AreSpaced [] = Unit
AreSpaced (t ∷ []) = Unit
AreSpaced (t ∷ u ∷ times) = (u + 30 ≤ t) × AreSpaced (u ∷ times)

-- Every line that was offered waits, is in the buffer, was posted, was discarded or was dropped.
pub record IsSound {ℓ} {A : Type ℓ} (queue_size batch_size : ℕ) (s : Shipper A) : Type 0 where
  pub bounded : length s.queue ≤ queue_size_of queue_size
  pub buffered : length s.buf < batch_size_of batch_size
  pub conserved :
      length s.queue + length s.buf + total s.batches + s.discarded + s.dropped ≡ s.offered
  pub spaced : AreSpaced s.logged_at
