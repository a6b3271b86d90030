-- ===== src/Config/Groups.antt =====
-- Each group of checks of internal/config/config.go finds nothing exactly if its rules are kept.
use go_fiber_starter.Prelude.{
  ◌≡◌, ◌≢◌, ◌↔◌, ◌⊎◌, inl, inr, refl, Bool, true, false, not, ◌&&◌, List, [], ◌∷◌, String, All,
  arith,
}
use go_fiber_starter.Net.{parses_ip, parses_cidr}
use go_fiber_starter.Config.{
  Config, base_checks, database_checks, limit_checks, proxy_checks, entry_checks, auth_checks,
  enabled_checks, timeout_checks, timeouts, is_none, is_prod, is_valid_port, env_local, env_dev,
  env_prod, db_driver_postgres, db_driver_mysql, db_driver_sqlite, default_demo_username,
  default_demo_password,
}
use text.Mathlib.Text.{◌==◌}
use go_fiber_starter.Config.Rules.{
  IsBase, IsDatabase, IsLimited, IsAddress, IsProxied, IsEnabled, IsTimed,
}
use go_fiber_starter.Config.Checks.{
  Passed, Passed-append, ne_iff, nor_iff, not_iff, nand_iff, one_of_three_iff, level_iff,
  contains_iff, if_iff,
}

pub IsBase-iff : (c : Config) → Passed (base_checks c) ↔ IsBase c
unfolding base_checks is_valid_port
IsBase-iff c = (
  (λ (name, (port, (env, (level, last)))). record {
    app_name = (ne_iff c.app_name "").0 name;
    port = (ground arith, ground arith);
    env = (one_of_three_iff c.env env_local env_dev env_prod).0 env;
    log_level = (level_iff c.log_level).0 level;
  }),
  (λ v. (
    (ne_iff c.app_name "").1 v.app_name,
    (
      ground (arith, v.port),
      (
        (one_of_three_iff c.env env_local env_dev env_prod).1 v.env,
        ((level_iff c.log_level).1 v.log_level, tt),
      ),
    ),
  )),
)

pub IsDatabase-iff : (c : Config) → Passed (database_checks c) ↔ IsDatabase c
unfolding database_checks
IsDatabase-iff c =
    let (prod_to, prod_from) =
      nand_iff _ _ (ne_iff c.db_driver db_driver_sqlite) (ne_iff c.env env_prod) in
    (
      (λ (driver, (dsn, (prod, (open_conns, (idle, last))))). record {
        db_driver =
            (one_of_three_iff c.db_driver db_driver_postgres db_driver_mysql db_driver_sqlite).0
              driver;
        db_dsn = (ne_iff c.db_dsn "").0 dsn;
        no_sqlite_in_prod = prod_to prod;
        open_conns = ground arith;
        idle_conns = (ground arith, ground arith);
      }),
      (λ v. (
        (one_of_three_iff c.db_driver db_driver_postgres db_driver_mysql db_driver_sqlite).1
            v.db_driver,
        (
          (ne_iff c.db_dsn "").1 v.db_dsn,
          (
            prod_from v.no_sqlite_in_prod,
            (ground (arith, v.open_conns), (ground (arith, v.idle_conns), tt)),
          ),
        ),
      )),
    )

pub IsLimited-iff : (c : Config) → Passed (limit_checks c) ↔ IsLimited c
unfolding limit_checks is_prod
IsLimited-iff c =
    let (origin_to, origin_from) =
      nand_iff _ _ (ne_iff c.env env_prod) (contains_iff "*" c.cors_allowed_origins) in
    (
      (λ (rate, (origins, (auth, (below, last)))). record {
        rate = ground arith;
        origins = origin_to origins;
        auth_rate = ground arith;
        auth_rate_below = ground arith;
      }),
      (λ v. (
        ground (arith, v.rate),
        (
          origin_from v.origins,
          (ground (arith, v.auth_rate), (ground (arith, v.auth_rate_below), tt)),
        ),
      )),
    )

-- An entry of the allowlist.
pub entries_iff : (ps : List String) → Passed (entry_checks ps) ↔ All IsAddress ps
unfolding entry_checks
entries_iff [] = ((λ h. tt), (λ h. tt))
entries_iff (p ∷ ps) =
    let (to, from) = entries_iff ps in
    let (here_to, here_from) =
      nand_iff _ _ (not_iff (parses_ip p) ((λ h. h), (λ h. h)))
        (not_iff (parses_cidr p) ((λ h. h), (λ h. h))) in
    ((λ (h, rest). (here_to h, to rest)), (λ (h, rest). (here_from h, from rest)))

pub proxies_to :
    (trust : Bool) (ps : List String) (header : String)
    → (trust && is_none ps) ≡ false
    → (trust && header == "") ≡ false
    → (not trust && not (is_none ps)) ≡ false
    → ((trust ≡ true) × (ps ≢ []) × (header ≢ "")) ⊎ ((trust ≡ false) × (ps ≡ []))
proxies_to true [] header a b d = cc
proxies_to true (p ∷ ps) header a b d = inl (refl, (λ e. cc), (ne_iff header "").0 b)
proxies_to false [] header a b d = inr (refl, refl)
proxies_to false (p ∷ ps) header a b d = cc

pub proxies_from :
    (trust : Bool) (ps : List String) (header : String)
    → ((trust ≡ true) × (ps ≢ []) × (header ≢ "")) ⊎ ((trust ≡ false) × (ps ≡ []))
    → ((trust && is_none ps) ≡ false)
      × ((trust && header == "") ≡ false)
      × ((not trust && not (is_none ps)) ≡ false)
proxies_from true [] header (inl (t, some, h)) = absurd (some refl)
proxies_from true (p ∷ ps) header (inl (t, some, h)) = (refl, (ne_iff header "").1 h, refl)
proxies_from false ps header (inl (t, some, h)) = cc
proxies_from true ps header (inr (t, e)) = cc
proxies_from false [] header (inr (t, e)) = (refl, refl, refl)
proxies_from false (p ∷ ps) header (inr (t, e)) = cc

pub IsProxied-iff : (c : Config) → Passed (proxy_checks c) ↔ IsProxied c
unfolding proxy_checks
IsProxied-iff c =
    let (split, join) = Passed-append (entry_checks c.trust_proxy_proxies) _ in
    let (to, from) = entries_iff c.trust_proxy_proxies in
    (
      (λ (none_given, rest).
          let (entries, (header, (ineffective, last))) = split rest in
          record {
            proxies =
                proxies_to c.trust_proxy c.trust_proxy_proxies c.trust_proxy_header none_given
                  header ineffective;
            addresses = to entries;
          }),
      (λ v.
          let (none_given, header, ineffective) =
            proxies_from c.trust_proxy c.trust_proxy_proxies c.trust_proxy_header v.proxies in
          (none_given, join (from v.addresses, (header, (ineffective, tt))))),
    )

pub IsEnabled-iff : (c : Config) → Passed (enabled_checks c) ↔ IsEnabled c
unfolding enabled_checks
IsEnabled-iff c =
    let (to, from) = nand_iff _ _ (ne_iff c.env env_prod) (
      nor_iff _ _ (ne_iff c.auth_demo_username default_demo_username)
        (ne_iff c.auth_demo_password default_demo_password)) in
    (
      (λ (secret, (ttl, (credentials, last))). record {
        secret = ground arith;
        ttl = ground arith;
        credentials = to credentials;
      }),
      (λ v. (ground (arith, v.secret), (ground (arith, v.ttl), (from v.credentials, tt)))),
    )

pub auth_iff : (c : Config) → Passed (auth_checks c) ↔ ((c.auth_enabled ≡ false) ⊎ IsEnabled c)
unfolding auth_checks
auth_iff c = if_iff c.auth_enabled (enabled_checks c) (IsEnabled-iff c)

pub IsTimed-iff : (c : Config) → Passed (timeout_checks (timeouts c)) ↔ IsTimed c
unfolding timeout_checks
IsTimed-iff c = (
  (λ (r, (w, (i, (s, last)))). record {
    read = ground arith;
    write = ground arith;
    idle = ground arith;
    shutdown = ground arith;
  }),
  (λ v. (
    ground (arith, v.read),
    (ground (arith, v.write), (ground (arith, v.idle), (ground (arith, v.shutdown), tt))),
  )),
)
