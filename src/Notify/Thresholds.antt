-- ===== src/Notify/Thresholds.antt =====
-- settings.Thresholds and Merge of internal/notify/evaluate.go. `A` stands for float64.
use speedtest_tracker.Base.{
  ℕ, String, ◌≡◌, refl, Bool, Option, none, some, List, [], ◌∷◌, arith, ◌==◌, str_eq, if◌then◌else◌,
  any,
}

pub record Thresholds (A : Type 0) : Type 0 where
  pub download_mbps_min : Option A
  pub upload_mbps_min : Option A
  pub ping_ms_max : Option A
  pub jitter_ms_max : Option A
  pub loss_pct_max : Option A
  pub notify_on_failure : Option Bool
  pub notify_always : Option Bool

-- The keys of nullableFields.
pub data Field : Type 0 where
  download upload ping jitter loss on_failure always : Field

unfoldable pub nullable_field : String → Option Field
nullable_field k =
    if str_eq k "download_mbps_min"
    then some download
    else if str_eq k "upload_mbps_min"
    then some upload
    else if str_eq k "ping_ms_max"
    then some ping
    else if str_eq k "jitter_ms_max"
    then some jitter
    else if str_eq k "loss_pct_max"
    then some loss
    else if str_eq k "notify_on_failure"
    then some on_failure
    else if str_eq k "notify_always"
    then some always
    else none

module _ {A : Type 0} where
  abbrev clear : Option Field → Thresholds A → Thresholds A
  clear none t = t
  clear (some download) t = record t { download_mbps_min = none }
  clear (some upload) t = record t { upload_mbps_min = none }
  clear (some ping) t = record t { ping_ms_max = none }
  clear (some jitter) t = record t { jitter_ms_max = none }
  clear (some loss) t = record t { loss_pct_max = none }
  clear (some on_failure) t = record t { notify_on_failure = none }
  clear (some always) t = record t { notify_always = none }

  clear_all : List String → Thresholds A → Thresholds A
  clear_all [] t = t
  clear_all (k ∷ ks) t = clear_all ks (clear (nullable_field k) t)

abbrev pub layer {ℓ} : {B : Type ℓ} → Option B → Option B → Option B
layer none base = base
layer (some v) base = some v

module _ {A : Type 0} where
  -- The keys of `nulled` in any order.
  unfoldable pub merge : Thresholds A → Thresholds A → List String → Thresholds A
  unfolding clear_all
  merge base override nulled = clear_all nulled (record {
    download_mbps_min = layer override.download_mbps_min base.download_mbps_min;
    upload_mbps_min = layer override.upload_mbps_min base.upload_mbps_min;
    ping_ms_max = layer override.ping_ms_max base.ping_ms_max;
    jitter_ms_max = layer override.jitter_ms_max base.jitter_ms_max;
    loss_pct_max = layer override.loss_pct_max base.loss_pct_max;
    notify_on_failure = layer override.notify_on_failure base.notify_on_failure;
    notify_always = layer override.notify_always base.notify_always;
  })

abbrev rank : Option Field → ℕ
rank none = 0
rank (some download) = 1
rank (some upload) = 2
rank (some ping) = 3
rank (some jitter) = 4
rank (some loss) = 5
rank (some on_failure) = 6
rank (some always) = 7

-- The field is named in the set.
abbrev pub names : Field → List String → Bool
names f = any (λ k. rank (nullable_field k) == rank (some f))

abbrev pub unless {ℓ} : {B : Type ℓ} → Bool → Option B → Option B
unless b o = if b then none else o

module _ {A : Type 0} where
  -- Each field is what the set of nulled keys makes of it, whatever the order.
  pub record Cleared (ks : List String) (t u : Thresholds A) : Type 0 where
    pub download_lem : u.download_mbps_min ≡ unless (names download ks) t.download_mbps_min
    pub upload_lem : u.upload_mbps_min ≡ unless (names upload ks) t.upload_mbps_min
    pub ping_lem : u.ping_ms_max ≡ unless (names ping ks) t.ping_ms_max
    pub jitter_lem : u.jitter_ms_max ≡ unless (names jitter ks) t.jitter_ms_max
    pub loss_lem : u.loss_pct_max ≡ unless (names loss ks) t.loss_pct_max
    pub failure_lem : u.notify_on_failure ≡ unless (names on_failure ks) t.notify_on_failure
    pub always_lem : u.notify_always ≡ unless (names always ks) t.notify_always

  clear_all-Cleared : (ks : List String) (t : Thresholds A) → Cleared ks t (clear_all ks t)
  unfolding clear_all
  clear_all-Cleared [] t = ground arith
  clear_all-Cleared (k ∷ ks) t =
      go (nullable_field k) refl (clear_all-Cleared ks (clear (nullable_field k) t))
    where
      go :
          (f : Option Field)
          → nullable_field k ≡ f
          → Cleared ks (clear (nullable_field k) t) (clear_all ks (clear (nullable_field k) t))
          → Cleared (k ∷ ks) t (clear_all (k ∷ ks) t)
      go none e ih = ground arith
      go (some download) e ih = ground arith
      go (some upload) e ih = ground arith
      go (some ping) e ih = ground arith
      go (some jitter) e ih = ground arith
      go (some loss) e ih = ground arith
      go (some on_failure) e ih = ground arith
      go (some always) e ih = ground arith

  -- The override where it is set, and the default elsewhere.
  abbrev pub layered : Thresholds A → Thresholds A → Thresholds A
  layered base override = record {
    download_mbps_min = layer override.download_mbps_min base.download_mbps_min;
    upload_mbps_min = layer override.upload_mbps_min base.upload_mbps_min;
    ping_ms_max = layer override.ping_ms_max base.ping_ms_max;
    jitter_ms_max = layer override.jitter_ms_max base.jitter_ms_max;
    loss_pct_max = layer override.loss_pct_max base.loss_pct_max;
    notify_on_failure = layer override.notify_on_failure base.notify_on_failure;
    notify_always = layer override.notify_always base.notify_always;
  }

  -- Each field of a merge is unset if its key is among the nulled ones, in whatever order they are
  -- visited, and else the override's where that is set and the default's where it is not.
  pub merge-Cleared :
      (base override : Thresholds A) (nulled : List String)
      → Cleared nulled (layered base override) (merge base override nulled)
  unfolding merge
  merge-Cleared base override nulled = clear_all-Cleared nulled (layered base override)
