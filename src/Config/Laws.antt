-- ===== src/Config/Laws.antt =====
-- What apps/api/src/config/env.validation.ts guarantees to the services that read the settings.
use sync_bridge_platform.Base.{
  ◌<◌, String, true, not, ◌&&◌, ◌||◌, Option, some, List, [], ◌∷◌, ◌==◌, ◌≡◌, ◌≢◌, arith, ok,
  >>=-eq-ok, is_there, All, inl, inr, Bool-cases, ◌∙◌,
}
use sync_bridge_platform.Js.{Js, Fields, read}
use sync_bridge_platform.Jobs.Queue.{queue_settings}
use sync_bridge_platform.Scheduler.Settings.{scheduler_config, poll_interval_seconds}
use sync_bridge_platform.Config.{
  Parsers, NormalizedConfig, is_positive, cors_origins, is_web, check_origins, check_cors,
  get_string_value, normalize, check_config, validate_env,
}

module _ (parsers : Parsers) where
  abbrev pub IsOrigin : String → Type 0
  IsOrigin origin = origin == "*" || is_web (parsers.protocol_of origin) ≡ true

  pub record IsChecked (c : NormalizedConfig) : Type 0 where
    pub port : is_positive (parsers.integer_of c.port) ≡ true
    pub attempts : is_positive (parsers.integer_of c.bullmq_default_attempts) ≡ true
    pub backoff : is_there (parsers.integer_of c.bullmq_backoff_ms) ≡ true
    pub scheduler : c.scheduler_enabled == "true" || c.scheduler_enabled == "false" ≡ true
    pub poll_interval : is_positive (parsers.integer_of c.scheduler_poll_interval_seconds) ≡ true
    pub lock_ttl : is_positive (parsers.integer_of c.scheduler_lock_ttl_seconds) ≡ true
    pub some_origin : cors_origins c.cors_origin ≢ []
    pub origins : All IsOrigin (cors_origins c.cors_origin)

  check_origins_sound :
      (origins : List String) → check_origins parsers origins ≡ ok tt → All IsOrigin origins
  unfolding check_origins
  check_origins_sound [] h = tt
  check_origins_sound (origin ∷ origins) h =
      (ground (arith, h), check_origins_sound origins (ground (arith, h)))

  check_cors_sound :
      (text : String)
      → check_cors parsers text ≡ ok tt
      → (cors_origins text ≢ []) × All IsOrigin (cors_origins text)
  unfolding check_cors
  check_cors_sound text h = (
    (λ none_left. ground (arith, h, none_left)),
    check_origins_sound (cors_origins text) (ground (arith, h)),
  )

  check_config_sound :
      (js : Js) (c d : NormalizedConfig)
      → check_config parsers js c ≡ ok d
      → IsChecked d × (d.queue_mode ≡ c.queue_mode)
  unfolding check_config
  check_config_sound js c d h =
      let cors : check_cors parsers d.cors_origin ≡ ok tt = ground (arith, h) in
      (
        record {
          port = ground (arith, h);
          attempts = ground (arith, h);
          backoff = ground (arith, h);
          scheduler = ground (arith, h);
          poll_interval = ground (arith, h);
          lock_ttl = ground (arith, h);
          some_origin = (check_cors_sound d.cors_origin cors).0;
          origins = (check_cors_sound d.cors_origin cors).1;
        },
        ground (arith, h),
      )

-- The settings that the services read off an environment are those that it states, and in range.
pub record AreStated (parsers : Parsers) (js : Js) (c : NormalizedConfig) : Type 0 where
  pub attempts :
      parsers.integer_of c.bullmq_default_attempts
      ≡ some (queue_settings parsers js c).default_attempts
  pub attempts_pos : 0 < (queue_settings parsers js c).default_attempts
  pub backoff :
      parsers.integer_of c.bullmq_backoff_ms ≡ some (queue_settings parsers js c).backoff_ms
  pub poll_interval :
      parsers.integer_of c.scheduler_poll_interval_seconds ≡ some (poll_interval_seconds parsers c)
  pub poll_interval_pos : 0 < poll_interval_seconds parsers c
  pub lock_ttl :
      (role : Option String)
      → parsers.integer_of c.scheduler_lock_ttl_seconds
        ≡ some (scheduler_config parsers c role).lock_ttl_seconds
  pub lock_ttl_pos : (role : Option String) → 0 < (scheduler_config parsers c role).lock_ttl_seconds

module _ (parsers : Parsers) (js : Js) where
  settings_lem : (c : NormalizedConfig) → IsChecked parsers c → AreStated parsers js c
  unfolding queue_settings poll_interval_seconds scheduler_config
  settings_lem c h = record {
    attempts = ground (arith, h.attempts);
    attempts_pos = ground (arith, h.attempts);
    backoff = ground (arith, h.backoff);
    poll_interval = ground (arith, h.poll_interval);
    poll_interval_pos = ground (arith, h.poll_interval);
    lock_ttl = λ role. ground (arith, h.lock_ttl);
    lock_ttl_pos = λ role. ground (arith, h.lock_ttl);
  }

  normalize-queue_mode :
      (config : Fields js.Num) (queue_mode : String) (c : NormalizedConfig)
      → normalize parsers js config queue_mode ≡ ok c
      → c.queue_mode ≡ queue_mode
  unfolding normalize
  normalize-queue_mode config queue_mode c h = ground (arith, h)

  -- An environment that is accepted is usable: the port, the attempts, the poll interval and the time of the lock
  -- are positive integers and the delay is an integer; QUEUE_MODE is sync or async and SCHEDULER_ENABLED true
  -- or false; there is an origin, and each is the star or an address of the web. The services then never
  -- take a fallback: the attempts, the delay, the poll interval and the lock are those of the environment.
  pub validate_env-IsChecked :
      (config : Fields js.Num) (c : NormalizedConfig)
      → validate_env parsers js config ≡ ok c
      → IsChecked parsers c
        × (c.queue_mode == "sync" || c.queue_mode == "async" ≡ true)
        × AreStated parsers js c
  unfolding validate_env
  validate_env-IsChecked config c h =
      let (raw, e, h1) =
        >>=-eq-ok (get_string_value "QUEUE_MODE" (read config "QUEUE_MODE") "sync") _ h in
      elim (Bool-cases (not (js.to_lower raw == "sync") && not (js.to_lower raw == "async"))) [
        | inl other ↦ absurd (ground (arith, h1, other))
        | inr mode ↦
            let (c', e', h2) =
              >>=-eq-ok (normalize parsers js config (js.to_lower raw)) _ (rw mode at h1) in
            let (checked, same) = check_config_sound parsers js c' c h2 in
            (
              checked,
              rw (same ∙ normalize-queue_mode config (js.to_lower raw) c' e')
                  (ground (arith, mode)),
              settings_lem c checked,
            )
      ]
