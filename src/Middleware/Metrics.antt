-- ===== src/Middleware/Metrics.antt =====
-- internal/middleware/prometheus.go, the metrics of the middleware, and `newMetricsRegistry` of
-- cmd/api/main.go.
use go_fiber_starter.Prelude.{
  ℕ, ◌≡◌, ◌≢◌, refl, ◌∙◌, ap, sym, Option, none, some, List, [], ◌∷◌, ◌++◌, String, All,
}
use mathlib.Core.List.{append-nil}
use text.Mathlib.TextEquality.{eq_iff}
use go_fiber_starter.Prelude.Text.{◌<>◌, cut_prefix}

-- CounterOpts, and the part of HistogramOpts that is not about buckets.
pub record Opts : Type 0 where
  pub namespace : String
  pub name : String
  pub help : String

pub data Collector : Type 0 where
  counter_vec : Opts → (labels : List String) → Collector
  -- the upper bounds of the buckets are in milliseconds
  histogram_vec : Opts → (buckets : List ℕ) → (labels : List String) → Collector
  -- the collectors of the library
  go_collector process_collector : Collector

-- The registry of the library, with the state `R`. Where MustRegister panics there is no state.
pub record Registry (R : Type 0) : Type 0 where
  pub new_registry : R
  pub must_register : List Collector → R → Option R

pub record Prometheus : Type 0 where
  pub requests_total : Collector
  pub duration : Collector

abbrev metrics_namespace : String
metrics_namespace = "http"

abbrev total_opts : Opts
total_opts = record {
  namespace = metrics_namespace;
  name = "requests_total";
  help = "Total HTTP requests processed.";
}

abbrev duration_opts : Opts
duration_opts = record {
  namespace = metrics_namespace;
  name = "request_duration_seconds";
  help = "HTTP request latency in seconds.";
}

abbrev pub collectors : Prometheus
collectors = record {
  requests_total = counter_vec total_opts ("method" ∷ "route" ∷ "status" ∷ []);
  duration =
      histogram_vec duration_opts (5 ∷ 10 ∷ 25 ∷ 50 ∷ 100 ∷ 250 ∷ 500 ∷ 1000 ∷ 2500 ∷ 5000 ∷ [])
        ("method" ∷ "route" ∷ []);
}

abbrev with_collectors : {R : Type 0} → Prometheus → Option R → Option (Prometheus × R)
with_collectors p none = none
with_collectors p (some r) = some (p, r)

module _ {R : Type 0} (registry : Registry R) where
  unfoldable pub new_prometheus : R → Option (Prometheus × R)
  new_prometheus r =
      let p = collectors in
      with_collectors p (registry.must_register (p.requests_total ∷ p.duration ∷ []) r)

  unfoldable pub new_metrics_registry : Option R
  new_metrics_registry =
      registry.must_register (go_collector ∷ process_collector ∷ []) registry.new_registry

-- What the documentation of the library says of a registry, where `names` are the names that are
-- registered, and `described` those that a collector describes: collectors are registered one after
-- the other, as long as none of their names is taken.
pub record IsRegistry {R : Type 0} (registry : Registry R) (names : R → List String)
    (described : Collector → List String) : Type 0 where
  pub new_empty : names registry.new_registry ≡ []
  pub none_left : (r : R) → registry.must_register [] r ≡ some r
  pub registered :
      (c : Collector) (cs : List Collector) (r : R)
      → All (λ n. All (λ m. n ≢ m) (names r)) (described c)
      → (r' : R) × (registry.must_register (c ∷ cs) r ≡ registry.must_register cs r')
        × (names r' ≡ described c ++ names r)
  -- a name that is taken makes it panic
  pub clash :
      (c : Collector) (cs : List Collector) (r : R)
      → ¬ All (λ n. All (λ m. n ≢ m) (names r)) (described c)
      → registry.must_register (c ∷ cs) r ≡ none
  pub counter_described :
      (o : Opts) (labels : List String)
      → described (counter_vec o labels) ≡ (o.namespace <> "_" <> o.name) ∷ []
  pub histogram_described :
      (o : Opts) (buckets : List ℕ) (labels : List String)
      → described (histogram_vec o buckets labels) ≡ (o.namespace <> "_" <> o.name) ∷ []
  -- the names of the runtime and of the process
  pub runtime_described : All (λ n. cut_prefix n "http_" ≡ none) (described go_collector)
  pub process_described : All (λ n. cut_prefix n "http_" ≡ none) (described process_collector)
  pub apart : All (λ n. All (λ m. n ≢ m) (described go_collector)) (described process_collector)

abbrev total_name : String
total_name = "http_requests_total"

abbrev duration_name : String
duration_name = "http_request_duration_seconds"

foreign :
    (name rest : String) (names : List String)
    → cut_prefix name "http_" ≡ some rest
    → All (λ n. cut_prefix n "http_" ≡ none) names
    → All (λ m. name ≢ m) names
foreign name rest [] own h = tt
foreign name rest (n ∷ names) own (h, hs) = (
  (λ same. (let no = sym own ∙ ap (λ x. cut_prefix x "http_") same ∙ h in cc)),
  foreign name rest names own hs,
)

total_new :
    (names : List String)
    → All (λ n. cut_prefix n "http_" ≡ none) names
    → All (λ m. total_name ≢ m) names
unfolding cut_prefix
total_new names h = foreign total_name "requests_total" names refl h

duration_new :
    (names : List String)
    → All (λ n. cut_prefix n "http_" ≡ none) names
    → All (λ m. duration_name ≢ m) names
unfolding cut_prefix
duration_new names h = foreign duration_name "request_duration_seconds" names refl h

differ : duration_name ≢ total_name
differ e = (let no = (eq_iff duration_name total_name).1 e in cc)

All-append : {A : Type 0} (P : A → Type 0) (xs ys : List A) → All P xs → All P ys → All P (xs ++ ys)
All-append P [] ys h k = k
All-append P (x ∷ xs) ys (h, hs) k = (h, All-append P xs ys hs k)

no_names : (xs : List String) → All (λ n. All (λ m. n ≢ m) []) xs
no_names [] = tt
no_names (x ∷ xs) = (tt, no_names xs)

module _ {R : Type 0} (registry : Registry R) (names : R → List String)
    (described : Collector → List String) (laws : IsRegistry registry names described) where
  total_described : described collectors.requests_total ≡ total_name ∷ []
  total_described = laws.counter_described total_opts ("method" ∷ "route" ∷ "status" ∷ [])

  duration_described : described collectors.duration ≡ duration_name ∷ []
  duration_described = laws.histogram_described duration_opts _ ("method" ∷ "route" ∷ [])

  register_two :
      (c d : Collector) (n m : String) (r : R)
      → described c ≡ n ∷ []
      → described d ≡ m ∷ []
      → m ≢ n
      → All (λ x. n ≢ x) (names r)
      → All (λ x. m ≢ x) (names r)
      → (r' : R) × (registry.must_register (c ∷ d ∷ []) r ≡ some r') × (names r' ≡ m ∷ n ∷ names r)
  register_two c d n m r is_n is_m differ n_new m_new =
      let (r1, first, named) = laws.registered c (d ∷ []) r (rw is_n (n_new, tt)) in
      let named1 : names r1 ≡ n ∷ names r = named ∙ ap (λ l. l ++ names r) is_n in
      let (r2, second, named2) =
        laws.registered d [] r1 (rw (is_m, named1) ((differ, m_new), tt)) in
      (
        r2,
        first ∙ second ∙ laws.none_left r2,
        named2 ∙ ap (λ l. l ++ names r1) is_m ∙ ap (λ l. m ∷ l) named1,
      )

  -- The collectors of the middleware are registered under names of their own, if no name of the
  -- registry begins like theirs.
  new_prometheus-registers :
      (r : R)
      → All (λ n. cut_prefix n "http_" ≡ none) (names r)
      → (r' : R) × (new_prometheus registry r ≡ some (collectors, r'))
        × (names r' ≡ duration_name ∷ total_name ∷ names r)
  unfolding new_prometheus
  new_prometheus-registers r free =
      let (r', done, named) =
        register_two collectors.requests_total collectors.duration total_name duration_name r
          total_described duration_described differ (total_new (names r) free)
          (duration_new (names r) free) in
      (r', ap (with_collectors collectors) done, named)

  -- A second middleware on the same registry makes it panic.
  new_prometheus-clash :
      (r : R) (rest : List String)
      → names r ≡ duration_name ∷ total_name ∷ rest
      → new_prometheus registry r ≡ none
  unfolding new_prometheus
  new_prometheus-clash r rest taken = ap (with_collectors collectors) (
      laws.clash collectors.requests_total _ r
        (λ free. (let no = rw (total_described, taken) at free in no.0.1.0 refl)))

  -- The registry of the command has the collectors of the library.
  new_metrics_registry-registers :
      (r : R) × (new_metrics_registry registry ≡ some r)
      × (names r ≡ described process_collector ++ described go_collector)
  unfolding new_metrics_registry
  new_metrics_registry-registers =
      let (r1, first, named1) =
        laws.registered go_collector (process_collector ∷ []) registry.new_registry
          (rw laws.new_empty (no_names (described go_collector))) in
      let all1 : names r1 ≡ described go_collector =
        named1
        ∙ ap (λ l. described go_collector ++ l) laws.new_empty
        ∙ append-nil (described go_collector) in
      let (r2, second, named2) = laws.registered process_collector [] r1 (rw all1 laws.apart) in
      (
        r2,
        first ∙ second ∙ laws.none_left r2,
        named2 ∙ ap (λ l. described process_collector ++ l) all1,
      )

  -- Over a registry that behaves as documented, whose collectors of the runtime and of the process
  -- have no name that begins with "http_": neither the registry of the command nor the middleware
  -- that is built on it panics, the names registered are then those of the four collectors, and a
  -- second middleware on the same registry panics.
  pub metrics_registered :
      (r : R) × (r' : R) × (new_metrics_registry registry ≡ some r)
      × (new_prometheus registry r ≡ some (collectors, r'))
      × (names r'
          ≡ "http_request_duration_seconds"
            ∷ "http_requests_total"
            ∷ (described process_collector ++ described go_collector))
      × (new_prometheus registry r' ≡ none)
  metrics_registered =
      let (r, made, named) = new_metrics_registry-registers in
      let free =
        All-append (λ n. cut_prefix n "http_" ≡ none) (described process_collector)
          (described go_collector) laws.process_described laws.runtime_described in
      let (r', done, all) = new_prometheus-registers r (rw named free) in
      let all_named = all ∙ ap (λ l. duration_name ∷ total_name ∷ l) named in
      (r, r', made, done, all_named, new_prometheus-clash r' _ all_named)
