-- ===== src/Vlpush.antt =====
-- The log shipper of internal/vlpush/vlpush.go: the queue in front of the worker, its batches and its
-- flushes. A line is any value; times are seconds, and the worker's ticker and the answers of the
-- HTTP client are given with the events.
pub mod Shipped
use speedtest_tracker.Base.{
  ℕ, zero, suc, ◌+◌, ◌-◌, Bool, true, false, not, ◌&&◌, ◌||◌, Option, none, some, List, [], ◌∷◌,
  ◌++◌, ltb, leb, if◌then◌else◌, length,
}

-- QueueSize and BatchSize, with the defaults of New for 0 or less, written 0.
unfoldable pub queue_size_of : ℕ → ℕ
queue_size_of zero = 4096
queue_size_of (suc n) = suc n

unfoldable pub batch_size_of : ℕ → ℕ
batch_size_of zero = 100
batch_size_of (suc n) = suc n

-- `has_url` is whether the URL is not empty. `offered` counts the lines that Handle rendered,
-- `batches` are the ones that were posted, newest first, `discarded` counts the lines that a flush found
-- shipping disabled for, and `logged_at` are the times of the errors that were logged, newest first.
pub record Shipper {ℓ} (A : Type ℓ) : Type ℓ where
  pub enabled : Bool
  pub has_url : Bool
  pub queue : List A
  pub buf : List A
  pub stopped : Bool
  pub dropped : ℕ
  pub offered : ℕ
  pub batches : List (List A)
  pub discarded : ℕ
  pub logged_at : List ℕ

unfoldable pub new_shipper {ℓ} : {A : Type ℓ} → Shipper A
new_shipper = record {
  enabled = false;
  has_url = false;
  queue = [];
  buf = [];
  stopped = false;
  dropped = 0;
  offered = 0;
  batches = [];
  discarded = 0;
  logged_at = [];
}

-- time.Since(lastErrLogT) >= 30*time.Second; before the first error that time is the zero time.
unfoldable pub should_log : ℕ → List ℕ → Bool
should_log now [] = true
should_log now (last ∷ times) = leb (last + 30) now

module _ {ℓ} {A : Type ℓ} where
  -- Configure
  unfoldable pub configure : Bool → Bool → Shipper A → Shipper A
  configure enabled has_url s = record s { enabled = enabled; has_url = has_url }

  -- Handle, once the line is rendered.
  unfoldable pub handle : ℕ → A → Shipper A → Shipper A
  handle size line s =
      if not s.enabled || not s.has_url
      then s
      else if ltb (length s.queue) (queue_size_of size)
      then record s { queue = s.queue ++ line ∷ []; offered = suc s.offered }
      else record s { dropped = suc s.dropped; offered = suc s.offered }

  -- doFlush at a time, for whether the post succeeds; the caller empties its buffer afterwards.
  unfoldable pub do_flush : ℕ → Bool → List A → Shipper A → Shipper A
  unfolding should_log
  do_flush now posts buf s =
      if not s.enabled || not s.has_url
      then record s { discarded = s.discarded + length buf }
      else if posts
      then record s { batches = buf ∷ s.batches }
      else record s {
        dropped = s.dropped + length buf;
        logged_at = if should_log now s.logged_at then now ∷ s.logged_at else s.logged_at;
      }

  unfoldable pub flush_buf : ℕ → Bool → Shipper A → Shipper A
  unfolding do_flush
  flush_buf now posts s = record (do_flush now posts s.buf s) { buf = [] }

  -- A line from the queue in `run`.
  unfoldable pub take_line : ℕ → ℕ → Bool → Shipper A → Shipper A
  unfolding flush_buf
  take_line size now posts s = if s.stopped then s else elim s.queue [
    | [] ↦ s
    | line ∷ queue ↦
        let t : Shipper A = record s { queue = queue; buf = s.buf ++ line ∷ [] } in
        if leb (batch_size_of size) (length t.buf) then flush_buf now posts t else t
  ]

  -- A tick of `run`.
  unfoldable pub tick : ℕ → Bool → Shipper A → Shipper A
  unfolding flush_buf
  tick now posts s = if s.stopped || leb (length s.buf) 0 then s else flush_buf now posts s

  -- Close and drainAndFlush.
  unfoldable pub drain_and_flush : ℕ → Bool → Shipper A → Shipper A
  unfolding flush_buf
  drain_and_flush now posts s =
      if s.stopped
      then s
      else let t : Shipper A = record s { queue = []; buf = s.buf ++ s.queue; stopped = true } in
        if leb (length t.buf) 0 then t else flush_buf now posts t

pub data Event {ℓ} (A : Type ℓ) : Type ℓ where
  configures : Bool → Bool → Event A
  handles : A → Event A
  takes ticks drains : ℕ → Bool → Event A

unfoldable pub step {ℓ} : {A : Type ℓ} → ℕ → ℕ → Event A → Shipper A → Shipper A
unfolding configure handle take_line tick drain_and_flush
step queue_size batch_size (configures enabled has_url) s = configure enabled has_url s
step queue_size batch_size (handles line) s = handle queue_size line s
step queue_size batch_size (takes now posts) s = take_line batch_size now posts s
step queue_size batch_size (ticks now posts) s = tick now posts s
step queue_size batch_size (drains now posts) s = drain_and_flush now posts s

unfoldable pub run {ℓ} : {A : Type ℓ} → ℕ → ℕ → List (Event A) → Shipper A → Shipper A
unfolding step
run queue_size batch_size [] s = s
run queue_size batch_size (e ∷ es) s = run queue_size batch_size es (step queue_size batch_size e s)
