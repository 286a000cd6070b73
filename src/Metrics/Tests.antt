-- ===== src/Metrics/Tests.antt =====
-- A registry of src/infra/metricsRegistry.cpp whose values are natural numbers.
use hc_tcp_im_server.Common.{ℕ, ◌+◌, ◌≡◌, refl, true, List, [], ◌∷◌, leb}
use hc_tcp_im_server.Common.Dict.{find, put, text_key}
use hc_tcp_im_server.MySql.Text.{decimal}
use hc_tcp_im_server.Metrics
use hc_tcp_im_server.Metrics.{
  Measure, HistogramMetric, MetricsRegistry, new_registry, inf_bucket, sanitize_name,
}
use hc_tcp_im_server.Metrics.Buckets
use hc_tcp_im_server.Metrics.Buckets.{Call, enables, counts, observes, run, inf_bucket-run}

instance abbrev whole_numbers : Measure ℕ
whole_numbers = record { from_number = λ n. n; add = λ a b. a + b; at_most = leb; shown = decimal }

-- Two values, one above all bounds, and a name with a blank.
abbrev calls : List (Call ℕ)
calls =
    observes "off" 3 ""
    ∷ enables true
    ∷ counts "hits" 1 ""
    ∷ observes "rtt ms" 7 "time"
    ∷ observes "rtt ms" 9000 ""
    ∷ []

abbrev times : HistogramMetric ℕ
times = record {
  bounds = 1 ∷ 5 ∷ 10 ∷ 50 ∷ 100 ∷ 250 ∷ 500 ∷ 1000 ∷ 5000 ∷ [];
  bucket_counts = 0 ∷ 0 ∷ 1 ∷ 0 ∷ 0 ∷ 0 ∷ 0 ∷ 0 ∷ 0 ∷ 1 ∷ [];
  sum = 9007;
  count = 2;
  help = "time";
}

inf_bucket-run_example : inf_bucket "rtt_ms" times ≡ times.count
unfolding find put run Buckets.step new_registry Metrics.set_enabled Metrics.inc_counter
    Metrics.observe Metrics.observe_value Metrics.with_bounds Metrics.default_histogram_bounds
    Metrics.bucket_index Metrics.count_bucket Metrics.or_help Metrics.sanitize_name
    Metrics.sanitized_chars Metrics.is_valid_char
inf_bucket-run_example = inf_bucket-run calls "rtt_ms" times refl
