-- ===== src/Relay/Loaded.antt =====
-- config.go: what a configuration that was loaded satisfies.
use core_wallet.Prelude.{
  ℕ, zero, suc, ◌≤◌, ◌<◌, ◌^◌, ◌%◌, String, Bool, true, false, ◌&&◌, ◌≡◌, ◌≢◌, refl, subst, ◌⊎◌,
  inl, inr, Option, List, [], ◌∷◌, str_eq, eq_iff, All, arith, Bool-cases, trim_space,
}
use core_wallet.Prelude.Ints.{ℤ, pos, negsuc, ltz}
use core_wallet.Relay.{
  ConfigError, out_of_range, Result, ok, err, ◌>>=◌, ◌>>◌, refuse, Env, trimmed, split_csv, narrow,
  outside, get_env, get_env_int, signed32,
}
use core_wallet.Relay.Load.{
  Numbers, Config, is_empty, unknown_mode, checked, get_env_duration, get_env_float, read_numbers,
  assembled, load_config,
}

-- A number of at least one.
abbrev pub AtLeastOne : ℤ → Type 0
AtLeastOne z = (n : ℕ) × (z ≡ pos (suc n))

-- What the relay relies on.
pub record IsSafe {F : Type 0} (c : Config F) : Type 0 where
  pub mode_known : (c.mode ≡ "polling") ⊎ (c.mode ≡ "cdc")
  pub max_conns : (m : ℕ) × (c.db_max_conns ≡ pos m) × (1 ≤ m) × (m < 2 ^ 31)
  pub min_conns : (m : ℕ) × (c.db_min_conns ≡ pos m) × (m < 2 ^ 31)
  pub brokers : c.kafka_brokers ≢ []
  pub brokers_named : All (λ b. b ≢ "") c.kafka_brokers
  pub workers : c.mode ≡ "polling" → AtLeastOne c.worker_count
  pub batch : AtLeastOne c.batch_size
  pub attempts : AtLeastOne c.max_attempts
  pub delay : AtLeastOne c.retry_delay
  pub cap : ltz c.retry_max_delay c.retry_delay ≡ false

-- A property of the value of a result, if it has one.
abbrev Holds : {A : Type 0} → (A → Type 0) → Result A → Type 0
Holds P m = (a : _) → m ≡ ok a → P a

bind-Holds :
    {A B : Type 0} (P : B → Type 0) (m : Result A) (f : A → Result B)
    → ((a : A) → Holds P (f a))
    → Holds P (m >>= f)
bind-Holds P (ok a) f each b h = each a b h
bind-Holds P (err e) f each b h = absurd cc

refuse-Holds :
    {B : Type 0} (P : B → Type 0) (broken : Bool) (e : ConfigError) (rest : Result B)
    → (broken ≡ false → Holds P rest)
    → Holds P (refuse broken e >> rest)
refuse-Holds P true e rest each b h = absurd cc
refuse-Holds P false e rest each b h = each refl b h

ok_injective : {A : Type 0} (a b : A) → ok a ≡ ok b → a ≡ b
ok_injective a b h = cc

ok-Holds : {A : Type 0} (P : A → Type 0) (a : A) → P a → Holds P (ok a)
ok-Holds P a p b h = subst P (ok_injective a b h) p

at_least_one : (z : ℤ) → ltz z (pos 1) ≡ false → AtLeastOne z
unfolding ltz
at_least_one (pos zero) h = absurd cc
at_least_one (pos (suc n)) h = (n, refl)
at_least_one (negsuc n) h = absurd cc

mod_small : (m : ℕ) → m < 2 ^ 31 → m % 2 ^ 32 ≡ m
mod_small m h = omega (arith, h)

max_fits : (m : ℕ) → outside (pos 1) (pos m) ≡ false → m < 2 ^ 31
unfolding outside ltz
max_fits m h = ground (arith, h)

min_fits : (m : ℕ) → outside (pos 0) (pos m) ≡ false → m < 2 ^ 31
unfolding outside ltz
min_fits m h = ground (arith, h)

signed32_small : (m : ℕ) → m < 2 ^ 31 → signed32 (m % 2 ^ 32) ≡ pos m
unfolding signed32
signed32_small m h = let same = mod_small m h in ground (arith, same, h)

narrow_max :
    (v : ℤ) → outside (pos 1) v ≡ false → (m : ℕ) × (narrow v ≡ pos m) × (1 ≤ m) × (m < 2 ^ 31)
unfolding outside ltz narrow
narrow_max (pos m) h = let fits = max_fits m h in (m, signed32_small m fits, ground arith, fits)
narrow_max (negsuc m) h = absurd cc

narrow_min : (v : ℤ) → outside (pos 0) v ≡ false → (m : ℕ) × (narrow v ≡ pos m) × (m < 2 ^ 31)
unfolding outside ltz narrow
narrow_min (pos m) h = let fits = min_fits m h in (m, signed32_small m fits, fits)
narrow_min (negsuc m) h = absurd cc

trimmed-All : (parts : List String) → All (λ b. b ≢ "") (trimmed parts)
unfolding trimmed
trimmed-All [] = tt
trimmed-All (p ∷ parts) = elim (Bool-cases (str_eq (trim_space p) "")) [
  | inl gone ↦ rw (gone) (trimmed-All parts)
  | inr kept ↦
      rw (kept) ((λ e. let t = (eq_iff (trim_space p) "").1 e in absurd cc), trimmed-All parts)
]

known : (mode : String) → unknown_mode mode ≡ false → (mode ≡ "polling") ⊎ (mode ≡ "cdc")
unfolding unknown_mode
known mode h = elim (Bool-cases (str_eq mode "polling")) [
  | inl polling ↦ inl ((eq_iff mode "polling").0 polling)
  | inr other ↦ inr ((eq_iff mode "cdc").0 (ground (arith, other, h)))
]

not_empty : (bs : List String) → is_empty bs ≡ false → bs ≢ []
not_empty [] h e = absurd cc
not_empty (b ∷ bs) h e = absurd cc

workers_of :
    (mode : String) (count : ℤ)
    → (str_eq mode "polling" && ltz count (pos 1)) ≡ false
    → mode ≡ "polling"
    → AtLeastOne count
workers_of mode count h e =
    let polling = (eq_iff mode "polling").1 e in at_least_one count (ground (arith, polling, h))

module _ {F : Type 0} where
  checked-Holds :
      (c : Config F)
      → (c.mode ≡ "polling") ⊎ (c.mode ≡ "cdc")
      → (m : ℕ) × (c.db_max_conns ≡ pos m) × (1 ≤ m) × (m < 2 ^ 31)
      → (m : ℕ) × (c.db_min_conns ≡ pos m) × (m < 2 ^ 31)
      → All (λ b. b ≢ "") c.kafka_brokers
      → Holds IsSafe (checked c)
  unfolding checked
  checked-Holds c mode most least named = refuse-Holds _ _ _ _ λ brokers.
      refuse-Holds _ _ _ _ λ workers. refuse-Holds _ _ _ _ λ batch. refuse-Holds _ _ _ _ λ attempts.
        refuse-Holds _ _ _ _ λ delay. refuse-Holds _ _ _ _ λ cap. ok-Holds _ c (record {
          mode_known = mode;
          max_conns = most;
          min_conns = least;
          brokers = not_empty c.kafka_brokers brokers;
          brokers_named = named;
          workers = workers_of c.mode c.worker_count workers;
          batch = at_least_one c.batch_size batch;
          attempts = at_least_one c.max_attempts attempts;
          delay = at_least_one c.retry_delay delay;
          cap = cap;
        })

module _ {F : Type 0} (parse_duration : String → Option ℤ) (parse_float : String → Option F)
    (one : F) (env : Env) where
  abbrev Sized : Numbers F → Type 0
  Sized n = (outside (pos 1) n.max_conns ≡ false) × (outside (pos 0) n.min_conns ≡ false)

  -- The sizes are checked before anything else can end the reads.
  read_numbers-Holds : Holds Sized (read_numbers parse_duration parse_float one env)
  unfolding read_numbers
  read_numbers-Holds = bind-Holds _ (get_env_int env "DB_PORT" (pos 5432)) _ λ port.
      bind-Holds _ (get_env_int env "DB_MAX_CONNS" (pos 50)) _ λ most.
        bind-Holds _ (get_env_int env "DB_MIN_CONNS" (pos 5)) _ λ least.
          refuse-Holds _ (outside (pos 1) most) (out_of_range "DB_MAX_CONNS" most) _ λ above.
            refuse-Holds _ (outside (pos 0) least) (out_of_range "DB_MIN_CONNS" least) _ λ below.
              bind-Holds _
                (get_env_duration parse_duration parse_float one env "DB_MAX_CONN_LIFETIME"
                  (pos 1800000000000))
                _
                λ v0.
                  bind-Holds _
                    (get_env_duration parse_duration parse_float one env "DB_MAX_CONN_IDLE"
                      (pos 300000000000))
                    _
                    λ v1.
                      bind-Holds _
                        (get_env_duration parse_duration parse_float one env "DB_CONNECT_TIMEOUT"
                          (pos 5000000000))
                        _
                        λ v2.
                          bind-Holds _
                            (get_env_duration parse_duration parse_float one env
                              "DB_STATEMENT_TIMEOUT" (pos 2500000000))
                            _
                            λ v3.
                              bind-Holds _
                                (get_env_duration parse_duration parse_float one env
                                  "DB_LOCK_TIMEOUT" (pos 1500000000))
                                _
                                λ v4. bind-Holds _ (get_env_int env "BATCH_SIZE" (pos 100)) _ λ v5.
                                  bind-Holds _ (get_env_int env "MAX_RETRIES" (pos 3)) _ λ v6.
                                    bind-Holds _ (get_env_int env "MAX_ATTEMPTS" (pos 10)) _ λ v7.
                                      bind-Holds _ (get_env_int env "WORKER_COUNT" (pos 4)) _ λ v8.
                                        bind-Holds _ (get_env_int env "METRICS_PORT" (pos 9090)) _
                                          λ v9.
                                            bind-Holds _
                                              (get_env_duration parse_duration parse_float one env
                                                "POLL_INTERVAL" (pos 1000000000))
                                              _
                                              λ v10.
                                                bind-Holds _
                                                  (get_env_duration parse_duration parse_float one
                                                    env "RETRY_DELAY" (pos 5000000000))
                                                  _
                                                  λ v11.
                                                    bind-Holds _
                                                      (get_env_duration parse_duration parse_float
                                                        one env "RETRY_MAX_DELAY"
                                                        (pos 300000000000))
                                                      _
                                                      λ v12.
                                                        bind-Holds _
                                                          (get_env_duration parse_duration
                                                            parse_float one env "SHUTDOWN_TIMEOUT"
                                                            (pos 15000000000))
                                                          _
                                                          λ v13.
                                                            bind-Holds _
                                                            (get_env_float parse_duration
                                                            parse_float one env
                                                            "OTEL_TRACES_SAMPLER_ARG" one)
                                                            _ λ v14. ok-Holds Sized _ (above, below)

  assembled-Holds :
      (n : Numbers F)
      → unknown_mode (get_env env "RELAY_MODE" "polling") ≡ false
      → Sized n
      → Holds IsSafe (checked (assembled parse_duration parse_float one env n))
  unfolding assembled split_csv
  assembled-Holds n mode (most, least) =
      checked-Holds (assembled parse_duration parse_float one env n) (known _ mode)
        (narrow_max n.max_conns most) (narrow_min n.min_conns least) (trimmed-All _)

  loaded :
      unknown_mode (get_env env "RELAY_MODE" "polling") ≡ false
      → (m : Result (Numbers F)) → Holds Sized m
      → Holds IsSafe (m >>= λ n. checked (assembled parse_duration parse_float one env n))
  loaded mode (ok n) sized = assembled-Holds n mode (sized n refl)
  loaded mode (err e) sized = λ c h. absurd cc

  -- Every configuration that is loaded has a known mode, at least one broker and none without a name,
  -- pool sizes that an int32 holds, the greater of which is not 0, at least one worker where it
  -- polls, a batch size, a threshold and a delay of at least one, and a cap that is not below the
  -- delay.
  pub load_config-IsSafe :
      (c : Config F) → load_config parse_duration parse_float one env ≡ ok c → IsSafe c
  unfolding load_config
  load_config-IsSafe =
      refuse-Holds IsSafe _ _ _
        λ mode. loaded mode (read_numbers parse_duration parse_float one env) read_numbers-Holds
