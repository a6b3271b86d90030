-- ===== src/Config/Valid.antt =====
-- The configurations that `Validate` of internal/config/config.go accepts.
use go_fiber_starter.Prelude.{◌≡◌, ◌↔◌, ◌⊎◌, refl, false, List, [], ◌∷◌, ◌++◌, Result, ok, err}
use go_fiber_starter.Apperror.{GoError}
use go_fiber_starter.Config.{
  Config, Problem, base_checks, database_checks, limit_checks, proxy_checks, auth_checks,
  timeout_checks, timeouts, problems, validate, load, report, checked,
}
use go_fiber_starter.Config.Rules.{
  IsBase, IsDatabase, IsLimited, IsProxied, IsEnabled, IsTimed, IsValid,
}
use go_fiber_starter.Config.Checks.{found-nil, both_iff}
use go_fiber_starter.Config.Groups.{
  IsBase-iff, IsDatabase-iff, IsLimited-iff, IsProxied-iff, auth_iff, IsTimed-iff,
}

all_iff :
    (c : Config)
    → (problems c ≡ []) ↔ (
        ((((IsBase c × IsDatabase c) × IsLimited c) × IsProxied c)
          × ((c.auth_enabled ≡ false) ⊎ IsEnabled c))
        × IsTimed c)
unfolding problems
all_iff c =
    let two = base_checks c ++ database_checks c in
    let three = two ++ limit_checks c in
    let four = three ++ proxy_checks c in
    let five = four ++ auth_checks c in
    let (clean, passed) = found-nil (five ++ timeout_checks (timeouts c)) in
    let (to, from) =
      both_iff five (timeout_checks (timeouts c))
        (both_iff four (auth_checks c)
          (both_iff three (proxy_checks c)
            (both_iff two (limit_checks c)
              (both_iff (base_checks c) (database_checks c) (IsBase-iff c) (IsDatabase-iff c))
              (IsLimited-iff c))
            (IsProxied-iff c))
          (auth_iff c))
        (IsTimed-iff c) in
    ((λ h. to (clean h)), (λ v. passed (from v)))

IsValid-iff : (c : Config) → (problems c ≡ []) ↔ IsValid c
IsValid-iff c =
    let (to, from) = all_iff c in
    (
      (λ h.
          let (((((base, database), limits), proxies), auth), timed) = to h in
          record {
            base = base;
            database = database;
            limits = limits;
            proxies = proxies;
            auth = auth;
            timed = timed;
          }),
      (λ v. from (((((v.base, v.database), v.limits), v.proxies), v.auth), v.timed)),
    )

report_iff : (ps : List Problem) → (report ps ≡ ok tt) ↔ (ps ≡ [])
report_iff [] = ((λ h. refl), (λ h. refl))
report_iff (p ∷ ps) = ((λ h. cc), (λ h. cc))

-- `Validate` accepts exactly the configurations that keep every rule of `IsValid`.
pub validate_iff : (c : Config) → (validate c ≡ ok tt) ↔ IsValid c
unfolding validate
validate_iff c =
    let (clean, accepted) = report_iff (problems c) in
    let (to, from) = IsValid-iff c in ((λ h. to (clean h)), (λ v. accepted (from v)))

checked_iff :
    (c c' : Config) (r : Result (List Problem) (Unit {0}))
    → (checked c r ≡ ok c') ↔ ((r ≡ ok tt) × (c ≡ c'))
checked_iff c c' (ok tt) = ((λ h. (refl, cc)), (λ (r, e). (λ i. ok (e i))))
checked_iff c c' (err ps) = ((λ h. cc), (λ (r, e). cc))

-- `Load` returns exactly the valid configurations that the environment gives.
pub load_iff :
    (parsed : Result GoError Config) (c : Config)
    → (load parsed ≡ ok c) ↔ ((parsed ≡ ok c) × IsValid c)
unfolding load
load_iff (err e) c = ((λ h. cc), (λ h. cc (h.0)))
load_iff (ok c') c =
    let (to, from) = checked_iff c' c (validate c') in
    (
      (λ h. let (fine, same) = to h in (λ i. ok (same i), rw same at ((validate_iff c').0 fine))),
      (λ (parsed, valid).
          let same : c' ≡ c = cc in from ((validate_iff c').1 (rw (← same) at valid), same)),
    )
