-- ===== src/Metrics/Buckets.antt =====
-- src/infra/metricsRegistry.cpp: the buckets of a histogram hold every value once.
use hc_tcp_im_server.Common.{
  ℕ, zero, suc, ◌+◌, ◌%◌, ◌<◌, ◌≤◌, ◌≡◌, refl, sym, ap, ◌∙◌, Bool, true, false, some, List, [], ◌∷◌,
  String, arith, u64, str_eq, length, if◌then◌else◌, Bool-cases, Option-cases, some_same, inl, inr,
}
use mathlib.Core.Path.{subst}
use hc_tcp_im_server.Common.Dict.{find, put, get_or, text_key, find-put}
use hc_tcp_im_server.Metrics.{
  Measure, HistogramMetric, MetricsRegistry, new_registry, set_enabled, sanitize_name, bucket_index,
  count_bucket, default_histogram_bounds, new_histogram, inc_counter, set_gauge, with_bounds,
  observe_value, observe, bucket_lines, last_bucket, inf_bucket,
}

abbrev total : List ℕ → ℕ
total [] = 0
total (n ∷ ns) = n + total ns

length-count_bucket : (i : ℕ) (ns : List ℕ) → length (count_bucket i ns) ≡ length ns
unfolding count_bucket
length-count_bucket i [] = refl
length-count_bucket zero (n ∷ ns) = refl
length-count_bucket (suc i) (n ∷ ns) = ap suc (length-count_bucket i ns)

total-count_bucket :
    (i : ℕ) (ns : List ℕ) → i < length ns → total (count_bucket i ns) % u64 ≡ (total ns + 1) % u64
unfolding count_bucket
total-count_bucket i [] h = omega arith
total-count_bucket zero (n ∷ ns) h = omega arith
total-count_bucket (suc i) (n ∷ ns) h = omega (arith, total-count_bucket i ns (omega arith))

module _ {D : Type 0} ⦃m : Measure D⦄ where
  bucket_index_le : (value : D) (bs : List D) → bucket_index value bs ≤ length bs
  unfolding bucket_index
  bucket_index_le value [] = omega arith
  bucket_index_le value (b ∷ bs) = ground (arith, bucket_index_le value bs)

  bucket_lines-total :
      (name : String) (bs : List D) (ns : List ℕ) (cumulative : ℕ)
      → length ns ≡ suc (length bs)
      → ((bucket_lines name bs ns cumulative).1 + last_bucket ns) % u64
        ≡ (cumulative + total ns) % u64
  unfolding bucket_lines last_bucket
  bucket_lines-total name [] [] c h = omega arith
  bucket_lines-total name [] (n ∷ []) c h = omega arith
  bucket_lines-total name [] (n ∷ k ∷ ns) c h = omega arith
  bucket_lines-total name (b ∷ bs) [] c h = omega arith
  bucket_lines-total name (b ∷ bs) (n ∷ []) c h = omega arith
  bucket_lines-total name (b ∷ bs) (n ∷ k ∷ ns) c h =
      omega (arith, bucket_lines-total name bs (k ∷ ns) ((c + n) % u64) (omega arith))

  -- A bucket for each bound and one more, which hold as many values as are counted.
  record IsWhole (h : HistogramMetric D) : Type 0 where
    buckets : length h.bucket_counts ≡ suc (length h.bounds)
    counted : total h.bucket_counts % u64 ≡ h.count
    bounded : 0 < length h.bounds

  with_bounds_new : IsWhole (with_bounds new_histogram)
  unfolding with_bounds default_histogram_bounds
  with_bounds_new = record { buckets = refl; counted = omega arith; bounded = omega arith }

  with_bounds_same : (h : HistogramMetric D) → 0 < length h.bounds → with_bounds h ≡ h
  unfolding with_bounds
  with_bounds_same h l = ground (arith, l)

  observe_value-IsWhole :
      (h : HistogramMetric D) (value : D) (help : String)
      → IsWhole (with_bounds h)
      → IsWhole (observe_value h value help)
  unfolding observe_value
  observe_value-IsWhole h value help i =
      let g = with_bounds h in
      let j = bucket_index value g.bounds in
      let inside : j < length g.bucket_counts =
        omega (arith, bucket_index_le value g.bounds, i.buckets) in
      record {
        buckets = length-count_bucket j g.bucket_counts ∙ i.buckets;
        counted = omega (arith, total-count_bucket j g.bucket_counts inside, i.counted);
        bounded = i.bounded;
      }

  AreWhole : MetricsRegistry D → Type 0
  AreWhole r = (name : String) (h : HistogramMetric D) → find name r.histograms ≡ some h → IsWhole h

-- The calls of the registry.
pub data Call (D : Type 0) : Type 0 where
  enables : Bool → Call D
  counts gauges observes : String → D → String → Call D

module _ {D : Type 0} ⦃m : Measure D⦄ where
  unfoldable pub step : MetricsRegistry D → Call D → MetricsRegistry D
  step r (enables b) = set_enabled r b
  step r (counts name delta help) = inc_counter r name delta help
  step r (gauges name value help) = set_gauge r name value help
  step r (observes name value help) = observe r name value help

  unfoldable pub run : MetricsRegistry D → List (Call D) → MetricsRegistry D
  run r [] = r
  run r (c ∷ cs) = run (step r c) cs

  inc_counter_histograms :
      (r : MetricsRegistry D) (name : String) (delta : D) (help : String)
      → (inc_counter r name delta help).histograms ≡ r.histograms
  unfolding inc_counter
  inc_counter_histograms r name delta help = elim (Bool-cases r.enabled) [
    | inl f ↦ rw (inc_counter, f) refl
    | inr f ↦ rw (inc_counter, f) refl
  ]

  set_gauge_histograms :
      (r : MetricsRegistry D) (name : String) (value : D) (help : String)
      → (set_gauge r name value help).histograms ≡ r.histograms
  unfolding set_gauge
  set_gauge_histograms r name value help = elim (Bool-cases r.enabled) [
    | inl f ↦ rw (set_gauge, f) refl
    | inr f ↦ rw (set_gauge, f) refl
  ]

  observe_off :
      (r : MetricsRegistry D) (name : String) (value : D) (help : String)
      → r.enabled ≡ false
      → observe r name value help ≡ r
  unfolding observe
  observe_off r name value help f = ground (arith, f)

  observe_on :
      (r : MetricsRegistry D) (name : String) (value : D) (help : String)
      → r.enabled ≡ true
      → let key = sanitize_name name in
        let g = observe_value (get_or key r.histograms new_histogram) value help in
        observe r name value help ≡ record r { histograms = put key g r.histograms }
  unfolding observe
  observe_on r name value help f = ground (arith, f)

  -- The histogram that a value is counted in.
  get_or-IsWhole :
      (r : MetricsRegistry D) (key : String)
      → AreWhole r
      → IsWhole (with_bounds (get_or key r.histograms new_histogram))
  unfolding AreWhole
  get_or-IsWhole r key w = elim (Option-cases (find key r.histograms)) [
    | inl e ↦ rw (get_or, e) with_bounds_new
    | inr (h, e) ↦ rw (get_or, e, with_bounds_same h (w key h e).bounded) (w key h e)
  ]

  find-put-IsWhole :
      (r : MetricsRegistry D) (key name : String) (g h : HistogramMetric D)
      → AreWhole r
      → IsWhole g
      → find name (put key g r.histograms) ≡ some h
      → IsWhole h
  unfolding AreWhole
  find-put-IsWhole r key name g h w i e =
      let split = sym (find-put key name g r.histograms) ∙ e in
      elim (Bool-cases (str_eq key name)) [
        | inl b ↦
            subst IsWhole
              (some_same g h
                (sym (ap (λ x. if x then some g else find name r.histograms) b) ∙ split))
              i
        | inr b ↦ w name h (sym (ap (λ x. if x then some g else find name r.histograms) b) ∙ split)
      ]

  observe-AreWhole :
      (r : MetricsRegistry D) (name : String) (value : D) (help : String)
      → AreWhole r
      → AreWhole (observe r name value help)
  unfolding observe AreWhole
  observe-AreWhole r name value help w n h e = elim (Bool-cases r.enabled) [
    | inr f ↦ w n h (sym (ap (λ x. find n x.histograms) (observe_off r name value help f)) ∙ e)
    | inl f ↦
        let key = sanitize_name name in
        let old = get_or key r.histograms new_histogram in
        find-put-IsWhole r key n (observe_value old value help) h w
          (observe_value-IsWhole old value help (get_or-IsWhole r key w))
          (sym (ap (λ x. find n x.histograms) (observe_on r name value help f)) ∙ e)
  ]

  step-AreWhole : (r : MetricsRegistry D) (c : Call D) → AreWhole r → AreWhole (step r c)
  unfolding step AreWhole set_enabled
  step-AreWhole r (enables b) w n h e = w n h e
  step-AreWhole r (counts name delta help) w n h e =
      w n h (sym (ap (λ x. find n x) (inc_counter_histograms r name delta help)) ∙ e)
  step-AreWhole r (gauges name value help) w n h e =
      w n h (sym (ap (λ x. find n x) (set_gauge_histograms r name value help)) ∙ e)
  step-AreWhole r (observes name value help) w n h e = observe-AreWhole r name value help w n h e

  run-AreWhole : (r : MetricsRegistry D) (cs : List (Call D)) → AreWhole r → AreWhole (run r cs)
  unfolding run
  run-AreWhole r [] w = w
  run-AreWhole r (c ∷ cs) w = run-AreWhole (step r c) cs (step-AreWhole r c w)

  -- From a new registry, after any calls: the count that is rendered for the bucket `+Inf` of a
  -- histogram is the count of its values, also where the counters of 64 bits have come round.
  pub inf_bucket-run :
      (cs : List (Call D)) (name : String) (h : HistogramMetric D)
      → find name (run new_registry cs).histograms ≡ some h
      → inf_bucket name h ≡ h.count
  unfolding inf_bucket new_registry AreWhole find
  inf_bucket-run cs name h e =
      let i = run-AreWhole new_registry cs (λ n g f. ground (arith, f)) name h e in
      bucket_lines-total name h.bounds h.bucket_counts 0 i.buckets ∙ omega (arith, i.counted)
