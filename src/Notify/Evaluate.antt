-- ===== src/Notify/Evaluate.antt =====
-- Evaluate of internal/notify/evaluate.go.
use speedtest_tracker.Base.{
  ℕ, suc, ◌<◌, String, ◌≡◌, Bool, true, false, not, ◌&&◌, Option, none, some, List, [], ◌∷◌, ◌++◌,
  arith, ◌==◌, str_eq, if◌then◌else◌, is_some, any, All,
}
use speedtest_tracker.Notify.Thresholds.{Thresholds}

-- What the program does with a float64: no law of it is used.
pub record Float64 (A : Type 0) : Type 0 where
  pub zero : A
  pub is_zero : A → Bool
  pub less : A → A → Bool
  pub per_million : A → A

pub data Metric : Type 0 where
  download upload ping jitter loss failure : Metric

-- allMetrics, by place.
abbrev pub place : Metric → ℕ
place download = 0
place upload = 1
place ping = 2
place jitter = 3
place loss = 4
place failure = 5

abbrev pub same : Metric → Metric → Bool
same m n = place m == place n

pub record Eval (A : Type 0) : Type 0 where
  pub metric : Metric
  pub breached : Bool
  pub value : A
  pub limit : A
  pub unit : String

pub data ResultStatus : Type 0 where
  ok failed degraded : ResultStatus

abbrev pub is_ok : ResultStatus → Bool
is_ok ok = true
is_ok _ = false

-- The fields of store.Result that the notifier reads.
pub record Result (A : Type 0) : Type 0 where
  pub id : ℕ
  pub target_id : Option ℕ
  pub engine : String
  pub status : ResultStatus
  pub error : String
  pub download_bps : A
  pub upload_bps : A
  pub ping_ms : A
  pub jitter_ms : A
  pub packet_loss_pct : A

abbrev pub is_set : Option Bool → Bool
is_set (some true) = true
is_set _ = false

module _ {A : Type 0} ⦃f : Float64 A⦄ where
  failure_eval : Bool → Eval A
  failure_eval b = record {
    metric = failure;
    breached = b;
    value = f.zero;
    limit = f.zero;
    unit = "";
  }

  -- iperf3 measures one direction: a zero in the other is no measurement.
  unmeasured : Result A → A → Bool
  unmeasured res v = str_eq res.engine "iperf3" && f.is_zero v

  min_eval : Metric → Bool → A → Option A → List (Eval A)
  min_eval m skip bps none = []
  min_eval m skip bps (some limit) =
      if skip
      then []
      else record {
        metric = m;
        breached = f.less (f.per_million bps) limit;
        value = f.per_million bps;
        limit = limit;
        unit = "Mbps";
      }
        ∷ []

  max_eval : Metric → String → A → Option A → List (Eval A)
  max_eval m unit v none = []
  max_eval m unit v (some limit) =
      record { metric = m; breached = f.less limit v; value = v; limit = limit; unit = unit } ∷ []

  recovered_eval : Option Bool → List (Eval A)
  unfolding failure_eval
  recovered_eval o = if is_set o then failure_eval false ∷ [] else []

  unfoldable pub evaluate : Result A → Thresholds A → List (Eval A)
  unfolding failure_eval unmeasured min_eval max_eval recovered_eval
  evaluate res t =
      if not (is_ok res.status)
      then (if is_set t.notify_on_failure then failure_eval true ∷ [] else [])
      else min_eval download (unmeasured res res.download_bps) res.download_bps t.download_mbps_min
        ++ (min_eval upload (unmeasured res res.upload_bps) res.upload_bps t.upload_mbps_min
            ++ (max_eval ping "ms" res.ping_ms t.ping_ms_max
                ++ (max_eval jitter "ms" res.jitter_ms t.jitter_ms_max
                    ++ (max_eval loss "%" res.packet_loss_pct t.loss_pct_max
                        ++ recovered_eval t.notify_on_failure))))

module _ {A : Type 0} where
  abbrev pub emits : Metric → List (Eval A) → Bool
  emits m = any (λ e. same e.metric m)

  -- The metrics stand in the order of allMetrics, each at most once, from place n on.
  abbrev pub IsOrdered : ℕ → List (Eval A) → Type 0
  IsOrdered n [] = Unit
  IsOrdered n (e ∷ es) = (n < suc (place e.metric)) × IsOrdered (suc (place e.metric)) es

  -- Whether the source says that the metric is evaluated.
  abbrev pub applies : ⦃f : Float64 A⦄ → Result A → Thresholds A → Metric → Bool
  applies ⦃f⦄ res t download =
      is_ok res.status
      && (is_some t.download_mbps_min
          && not (str_eq res.engine "iperf3" && f.is_zero res.download_bps))
  applies ⦃f⦄ res t upload =
      is_ok res.status
      && (is_some t.upload_mbps_min && not (str_eq res.engine "iperf3" && f.is_zero res.upload_bps))
  applies res t ping = is_ok res.status && is_some t.ping_ms_max
  applies res t jitter = is_ok res.status && is_some t.jitter_ms_max
  applies res t loss = is_ok res.status && is_some t.loss_pct_max
  applies res t failure = is_set t.notify_on_failure

module _ {A : Type 0} ⦃f : Float64 A⦄ (res : Result A) (t : Thresholds A) where
  evaluate-IsOrdered : IsOrdered 0 (evaluate res t)
  unfolding evaluate
  evaluate-IsOrdered = ground arith

  emits-evaluate : (m : Metric) → emits m (evaluate res t) ≡ applies res t m
  unfolding evaluate
  emits-evaluate download = ground arith
  emits-evaluate upload = ground arith
  emits-evaluate ping = ground arith
  emits-evaluate jitter = ground arith
  emits-evaluate loss = ground arith
  emits-evaluate failure = ground arith

  failed_only :
      is_ok res.status ≡ false
      → All (λ e. (e.metric ≡ failure) × (e.breached ≡ true)) (evaluate res t)
  unfolding evaluate
  failed_only h = ground arith

  -- Evaluate emits for every metric at most one eval, in the order of allMetrics: one exactly for
  -- each threshold of an ok result that is set and, for iperf3, whose direction was measured, and
  -- for the failure metric exactly when notify_on_failure is on. A result that is not ok emits
  -- nothing but a breached failure.
  pub evaluate_lem :
      IsOrdered 0 (evaluate res t)
      × ((m : Metric) → emits m (evaluate res t) ≡ applies res t m)
      × (is_ok res.status ≡ false
          → All (λ e. (e.metric ≡ failure) × (e.breached ≡ true)) (evaluate res t))
  evaluate_lem = (evaluate-IsOrdered, emits-evaluate, failed_only)
