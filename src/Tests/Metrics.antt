-- ===== src/Tests/Metrics.antt =====
-- The theorem on the registry of the metrics, at a registry that is a list of names.
use go_fiber_starter.Prelude.{
  ◌≡◌, ◌≢◌, refl, inl, inr, false, ◌||◌, Bool, Bool-cases, Option, none, some, List, [], ◌∷◌, ◌++◌,
  String, All, arith, if◌then◌else◌,
}
use go_fiber_starter.Prelude.Text.{◌<>◌, cut_prefix}
use go_fiber_starter.Middleware.Metrics.{
  Collector, counter_vec, histogram_vec, go_collector, process_collector, Registry, IsRegistry,
  collectors, new_prometheus, new_metrics_registry, metrics_registered,
}
use text.Mathlib.Text.{◌==◌}
use text.Mathlib.TextEquality.{eq_iff}

abbrev described : Collector → List String
described (counter_vec o labels) = (o.namespace <> "_" <> o.name) ∷ []
described (histogram_vec o buckets labels) = (o.namespace <> "_" <> o.name) ∷ []
described go_collector = "go_goroutines" ∷ "go_threads" ∷ []
described process_collector = "process_open_fds" ∷ []

abbrev known : String → List String → Bool
known n [] = false
known n (m ∷ ms) = n == m || known n ms

abbrev taken : List String → List String → Bool
taken [] ms = false
taken (n ∷ ns) ms = known n ms || taken ns ms

abbrev register_all : List Collector → List String → Option (List String)
register_all [] names = some names
register_all (c ∷ cs) names =
    let rest = register_all cs (described c ++ names) in
    if taken (described c) names then none else rest

abbrev registry : Registry (List String)
registry = record { new_registry = []; must_register = register_all }

abbrev names_of : List String → List String
names_of names = names

ne_known : (n : String) (ms : List String) → known n ms ≡ false → All (λ m. n ≢ m) ms
ne_known n [] h = tt
ne_known n (m ∷ ms) h =
    let other : (n == m) ≡ false = ground arith in
    let rest : known n ms ≡ false = ground arith in
    ((λ e. (let same = (eq_iff n m).1 e in cc)), ne_known n ms rest)

known_ne : (n : String) (ms : List String) → All (λ m. n ≢ m) ms → known n ms ≡ false
known_ne n [] h = refl
known_ne n (m ∷ ms) (other, h) = elim (Bool-cases (n == m)) [
  | inl y ↦ absurd (other ((eq_iff n m).0 y))
  | inr other_name ↦ rw other_name (known_ne n ms h)
]

ne_taken : (ns ms : List String) → taken ns ms ≡ false → All (λ n. All (λ m. n ≢ m) ms) ns
ne_taken [] ms h = tt
ne_taken (n ∷ ns) ms h =
    let own : known n ms ≡ false = ground arith in
    let rest : taken ns ms ≡ false = ground arith in (ne_known n ms own, ne_taken ns ms rest)

taken_ne : (ns ms : List String) → All (λ n. All (λ m. n ≢ m) ms) ns → taken ns ms ≡ false
taken_ne [] ms h = refl
taken_ne (n ∷ ns) ms (own, h) = rw (known_ne n ms own) (taken_ne ns ms h)

runtime_apart : All (λ n. All (λ m. n ≢ m) (described go_collector)) (described process_collector)
runtime_apart = ne_taken (described process_collector) (described go_collector) refl

registry-IsRegistry : IsRegistry registry names_of described
unfolding cut_prefix
registry-IsRegistry = record {
  new_empty = refl;
  none_left = λ r. refl;
  registered = λ c cs r free. (described c ++ r, rw (taken_ne (described c) r free) refl, refl);
  clash = λ c cs r held. elim (Bool-cases (taken (described c) r)) [
    | inl y ↦ rw y refl
    | inr n ↦ absurd (held (ne_taken (described c) r n))
  ];
  counter_described = λ o labels. refl;
  histogram_described = λ o buckets labels. refl;
  runtime_described = (refl, (refl, tt));
  process_described = (refl, tt);
  apart = runtime_apart;
}

metrics_registered_example :
    (r : List String) × (r' : List String) × (new_metrics_registry registry ≡ some r)
    × (new_prometheus registry r ≡ some (collectors, r'))
    × (r'
        ≡ "http_request_duration_seconds" ∷ "http_requests_total" ∷ "process_open_fds"
          ∷ "go_goroutines" ∷ "go_threads" ∷ [])
    × (new_prometheus registry r' ≡ none)
metrics_registered_example = metrics_registered registry names_of described registry-IsRegistry
