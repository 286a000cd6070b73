-- ===== src/Metrics.antt =====
-- src/infra/metricsRegistry.cpp: counters, gauges and histograms, and their text for Prometheus. A
-- `double` is a parameter.
pub mod Buckets
mod Tests
use Prim.Native.Char.{Char, code as char_code}
use Prim.Native.String.{char_at}
use Prim.Native.String.{[] as end, ◌∷◌ as char_and}
use hc_tcp_im_server.Common.{
  ℕ, zero, suc, ◌+◌, ◌%◌, Bool, true, false, ◌&&◌, ◌||◌, Option, none, some, List, [], ◌∷◌, map,
  String, u64, leb, ◌==◌, str_eq, if◌then◌else◌, length,
}
use hc_tcp_im_server.Common.Dict.{Dict, put, get_or, text_key}
use hc_tcp_im_server.MySql.Text.{stream, decimal}

-- What the code uses of `double`; `shown` is `<<`.
pub record Measure (D : Type 0) : Type 0 where
  pub from_number : ℕ → D
  pub add : D → D → D
  pub at_most : D → D → Bool
  pub shown : D → String

-- `CounterMetric` and `GaugeMetric`
pub record ValueMetric (D : Type 0) : Type 0 where
  pub value : D
  pub help : String

pub record HistogramMetric (D : Type 0) : Type 0 where
  pub bounds : List D
  pub bucket_counts : List ℕ
  pub sum : D
  pub count : ℕ
  pub help : String

pub record MetricsRegistry (D : Type 0) : Type 0 where
  pub enabled : Bool
  pub counters : Dict String (ValueMetric D)
  pub gauges : Dict String (ValueMetric D)
  pub histograms : Dict String (HistogramMetric D)

unfoldable pub new_registry : {D : Type 0} → MetricsRegistry D
new_registry = record { enabled = false; counters = []; gauges = []; histograms = [] }

unfoldable pub set_enabled : {D : Type 0} → MetricsRegistry D → Bool → MetricsRegistry D
set_enabled r enabled = record r { enabled = enabled }

unfoldable pub is_valid_char : ℕ → Bool
is_valid_char c =
    (leb 97 c && leb c 122)
    || ((leb 65 c && leb c 90) || ((leb 48 c && leb c 57) || (c == 95 || c == 58)))

-- The loop of `sanitizeName`.
unfoldable pub sanitized_chars : String → String
sanitized_chars end = end
sanitized_chars (char_and c s) =
    let rest = sanitized_chars s in
    char_and (if is_valid_char (char_code c) then c else char_at "_" 0) rest

unfoldable pub sanitize_name : String → String
sanitize_name name = if str_eq name "" then "unnamed_metric" else sanitized_chars name

-- `std::replace` of line ends by blanks.
unfoldable pub without_line_ends : String → String
without_line_ends end = end
without_line_ends (char_and c s) =
    let rest = without_line_ends s in char_and (if char_code c == 10 then char_at " " 0 else c) rest

unfoldable pub sanitize_help : String → String
sanitize_help help = if str_eq help "" then "no_help" else without_line_ends help

-- A help text that is given replaces the one before.
unfoldable pub or_help : String → String → String
or_help help before = if str_eq help "" then before else help

-- The first bound that the value does not exceed, or the number of bounds.
unfoldable pub bucket_index : {D : Type 0} ⦃m : Measure D⦄ → D → List D → ℕ
bucket_index value [] = 0
bucket_index ⦃m⦄ value (b ∷ bs) =
    let rest = bucket_index value bs in if m.at_most value b then 0 else suc rest

-- `++metric.bucketCounts[i]`
unfoldable pub count_bucket : ℕ → List ℕ → List ℕ
count_bucket i [] = []
count_bucket zero (n ∷ ns) = (n + 1) % u64 ∷ ns
count_bucket (suc i) (n ∷ ns) = n ∷ count_bucket i ns

-- `back()`
unfoldable pub last_bucket : List ℕ → ℕ
last_bucket [] = 0
last_bucket (n ∷ []) = n
last_bucket (n ∷ k ∷ ns) = last_bucket (k ∷ ns)

module _ {D : Type 0} ⦃m : Measure D⦄ where
  unfoldable pub default_histogram_bounds : List D
  default_histogram_bounds =
      map m.from_number (1 ∷ 5 ∷ 10 ∷ 50 ∷ 100 ∷ 250 ∷ 500 ∷ 1000 ∷ 5000 ∷ [])

  abbrev pub new_value : ValueMetric D
  new_value = record { value = m.from_number 0; help = "" }

  abbrev pub new_histogram : HistogramMetric D
  new_histogram = record {
    bounds = [];
    bucket_counts = [];
    sum = m.from_number 0;
    count = 0;
    help = "";
  }

  unfoldable pub inc_counter : MetricsRegistry D → String → D → String → MetricsRegistry D
  inc_counter r name delta help =
      let key = sanitize_name name in
      let metric = get_or key r.counters new_value in
      let metric' : ValueMetric D = record {
        value = m.add metric.value delta;
        help = or_help help metric.help;
      } in
      if r.enabled then record r { counters = put key metric' r.counters } else r

  unfoldable pub set_gauge : MetricsRegistry D → String → D → String → MetricsRegistry D
  set_gauge r name value help =
      let key = sanitize_name name in
      let metric = get_or key r.gauges new_value in
      let metric' : ValueMetric D = record { value = value; help = or_help help metric.help } in
      if r.enabled then record r { gauges = put key metric' r.gauges } else r

  -- The bounds, set at the first value, with a bucket for each and one more.
  unfoldable pub with_bounds : HistogramMetric D → HistogramMetric D
  with_bounds h = elim h.bounds [
    | [] ↦ record h {
      bounds = default_histogram_bounds;
      bucket_counts = 0 ∷ map (λ b. 0) default_histogram_bounds;
    }
    | b ∷ bs ↦ h
  ]

  unfoldable pub observe_value : HistogramMetric D → D → String → HistogramMetric D
  observe_value h0 value help =
      let h = with_bounds h0 in
      record {
        bounds = h.bounds;
        bucket_counts = count_bucket (bucket_index value h.bounds) h.bucket_counts;
        sum = m.add h.sum value;
        count = (h.count + 1) % u64;
        help = or_help help h.help;
      }

  unfoldable pub observe : MetricsRegistry D → String → D → String → MetricsRegistry D
  observe r name value help =
      let key = sanitize_name name in
      let metric = get_or key r.histograms new_histogram in
      if r.enabled
      then record r { histograms = put key (observe_value metric value help) r.histograms }
      else r

  -- The lines of the bounds, and the cumulated count behind them.
  unfoldable pub bucket_lines : String → List D → List ℕ → ℕ → String × ℕ
  bucket_lines name [] ns cumulative = ("", cumulative)
  bucket_lines name (b ∷ bs) [] cumulative = ("", cumulative)
  bucket_lines name (b ∷ bs) (n ∷ ns) cumulative =
      let c = (cumulative + n) % u64 in
      let rest = bucket_lines name bs ns c in
      (
        stream (name ∷ "_bucket{le=\"" ∷ m.shown b ∷ "\"} " ∷ decimal c ∷ "\n" ∷ rest.0 ∷ []),
        rest.1,
      )

  -- The count of the bucket `+Inf`.
  unfoldable pub inf_bucket : String → HistogramMetric D → ℕ
  inf_bucket name h =
      ((bucket_lines name h.bounds h.bucket_counts 0).1 + last_bucket h.bucket_counts) % u64

  unfoldable pub render_value : String → String → ValueMetric D → String
  render_value kind name v = stream (
      "# HELP "
      ∷ name
      ∷ " "
      ∷ sanitize_help v.help
      ∷ "\n"
      ∷ "# TYPE "
      ∷ name
      ∷ kind
      ∷ name
      ∷ " "
      ∷ m.shown v.value
      ∷ "\n"
      ∷ [])

  unfoldable pub render_histogram : String → HistogramMetric D → String
  render_histogram name h = stream (
      "# HELP "
      ∷ name
      ∷ " "
      ∷ sanitize_help h.help
      ∷ "\n"
      ∷ "# TYPE "
      ∷ name
      ∷ " histogram\n"
      ∷ (bucket_lines name h.bounds h.bucket_counts 0).0
      ∷ name
      ∷ "_bucket{le=\"+Inf\"} "
      ∷ decimal (inf_bucket name h)
      ∷ "\n"
      ∷ name
      ∷ "_sum "
      ∷ m.shown h.sum
      ∷ "\n"
      ∷ name
      ∷ "_count "
      ∷ decimal h.count
      ∷ "\n"
      ∷ [])

  unfoldable pub render_prometheus : MetricsRegistry D → String
  render_prometheus r = stream (
      stream (map (λ i. render_value " counter\n" i.0 i.1) r.counters)
      ∷ stream (map (λ i. render_value " gauge\n" i.0 i.1) r.gauges)
      ∷ stream (map (λ i. render_histogram i.0 i.1) r.histograms)
      ∷ [])
