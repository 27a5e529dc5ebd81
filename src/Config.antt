-- ===== src/Config.antt =====
-- internal/config/config.go. os.Getenv is a function from the names of the variables, with "" for one that
-- is not set; strconv.Atoi, time.ParseDuration and strconv.ParseBool are the record `Parsers`, with none
-- for their errors. A duration is a number of nanoseconds.
use Prim.Native.String.{◌++◌ as ◌+++◌}
use insider_one_notification.Prelude.{
  ℕ, ◌+◌, ◌-◌, ◌*◌, ◌%◌, ◌^◌, ◌<◌, ◌≡◌, String, Bool, true, Option, none, some, ltb, str_eq, arith,
  if◌then◌else◌,
}
use insider_one_notification.Prelude.Int.{ℤ, pos, negsuc}

pub record ServerConfig : Type 0 where
  pub port : String
  pub read_timeout : ℤ
  pub write_timeout : ℤ
  pub shutdown_timeout : ℤ

pub record PostgresConfig : Type 0 where
  pub host : String
  pub port : String
  pub user : String
  pub password : String
  pub db_name : String
  pub ssl_mode : String
  pub max_conns : ℤ
  pub min_conns : ℤ

pub record RedisConfig : Type 0 where
  pub addr : String
  pub password : String
  pub db : ℤ

pub record WebhookConfig : Type 0 where
  pub base_url : String
  pub uuid : String
  pub timeout : ℤ
  pub max_idle_conns : ℤ
  pub idle_conn_timeout : ℤ

pub record WorkerConfig : Type 0 where
  pub concurrency_per_channel : ℤ
  pub poll_interval : ℤ
  pub retry_max_attempts : ℤ
  pub retry_base_delay : ℤ
  pub retry_max_delay : ℤ
  pub scheduler_interval : ℤ

pub record RateLimitConfig : Type 0 where
  pub max_per_second_per_channel : ℤ
  pub burst_size : ℤ

pub record TracingConfig : Type 0 where
  pub enabled : Bool
  pub endpoint : String
  pub service_name : String

pub record Config : Type 0 where
  pub server : ServerConfig
  pub postgres : PostgresConfig
  pub redis : RedisConfig
  pub webhook : WebhookConfig
  pub worker : WorkerConfig
  pub rate_limit : RateLimitConfig
  pub tracing : TracingConfig

abbrev pub dsn : PostgresConfig → String
dsn c =
    "postgres://" +++ c.user +++ ":" +++ c.password +++ "@" +++ c.host +++ ":" +++ c.port +++ "/"
    +++ c.db_name +++ "?sslmode=" +++ c.ssl_mode

pub record Parsers : Type 0 where
  pub atoi : String → Option ℤ
  pub parse_duration : String → Option ℤ
  pub parse_bool : String → Option Bool

-- The conversion int32(n), which drops the upper bits.
abbrev pub signed_32 : ℕ → ℤ
signed_32 r = if ltb r (2 ^ 31) then pos r else negsuc (2 ^ 32 - 1 - r)

unfoldable pub to_int32 : ℤ → ℤ
to_int32 (pos n) = signed_32 (n % 2 ^ 32)
to_int32 (negsuc n) = signed_32 (2 ^ 32 - 1 - n % 2 ^ 32)

abbrev pub or_default : {A : Type 0} → Option A → A → A
or_default (some v) default = v
or_default none default = default

-- A value that is read by a parser; the default stands for "" and for what the parser refuses.
unfoldable pub env_parsed : {A : Type 0} → (String → Option A) → (String → String) → String → A → A
env_parsed parse getenv key default =
    if str_eq (getenv key) "" then default else or_default (parse (getenv key)) default

abbrev milliseconds : ℕ → ℤ
milliseconds n = pos (n * 1000000)

abbrev seconds : ℕ → ℤ
seconds n = milliseconds (n * 1000)

module _ (p : Parsers) (getenv : String → String) where
  unfoldable pub env_or_default : String → String → String
  env_or_default key default = if str_eq (getenv key) "" then default else getenv key

  abbrev pub env_int_or_default : String → ℤ → ℤ
  env_int_or_default = env_parsed p.atoi getenv

  abbrev pub env_duration_or_default : String → ℤ → ℤ
  env_duration_or_default = env_parsed p.parse_duration getenv

  abbrev pub env_bool_or_default : String → Bool → Bool
  env_bool_or_default = env_parsed p.parse_bool getenv

  unfoldable pub load : Config
  load = record {
    server = record {
      port = env_or_default "SERVER_PORT" "8080";
      read_timeout = env_duration_or_default "SERVER_READ_TIMEOUT" (seconds 10);
      write_timeout = env_duration_or_default "SERVER_WRITE_TIMEOUT" (seconds 30);
      shutdown_timeout = env_duration_or_default "SERVER_SHUTDOWN_TIMEOUT" (seconds 15);
    };
    postgres = record {
      host = env_or_default "POSTGRES_HOST" "localhost";
      port = env_or_default "POSTGRES_PORT" "5432";
      user = env_or_default "POSTGRES_USER" "notification";
      password = env_or_default "POSTGRES_PASSWORD" "notification";
      db_name = env_or_default "POSTGRES_DB" "notification_system";
      ssl_mode = env_or_default "POSTGRES_SSLMODE" "disable";
      max_conns = to_int32 (env_int_or_default "POSTGRES_MAX_CONNS" (pos 20));
      min_conns = to_int32 (env_int_or_default "POSTGRES_MIN_CONNS" (pos 5));
    };
    redis = record {
      addr = env_or_default "REDIS_ADDR" "localhost:6379";
      password = env_or_default "REDIS_PASSWORD" "";
      db = env_int_or_default "REDIS_DB" (pos 0);
    };
    webhook = record {
      base_url = env_or_default "WEBHOOK_BASE_URL" "https://webhook.site";
      uuid = env_or_default "WEBHOOK_UUID" "";
      timeout = env_duration_or_default "WEBHOOK_TIMEOUT" (seconds 10);
      max_idle_conns = env_int_or_default "WEBHOOK_MAX_IDLE_CONNS" (pos 100);
      idle_conn_timeout = env_duration_or_default "WEBHOOK_IDLE_CONN_TIMEOUT" (seconds 90);
    };
    worker = record {
      concurrency_per_channel = env_int_or_default "WORKER_CONCURRENCY_PER_CHANNEL" (pos 10);
      poll_interval = env_duration_or_default "WORKER_POLL_INTERVAL" (milliseconds 100);
      retry_max_attempts = env_int_or_default "WORKER_RETRY_MAX_ATTEMPTS" (pos 5);
      retry_base_delay = env_duration_or_default "WORKER_RETRY_BASE_DELAY" (seconds 1);
      retry_max_delay = env_duration_or_default "WORKER_RETRY_MAX_DELAY" (seconds 300);
      scheduler_interval = env_duration_or_default "WORKER_SCHEDULER_INTERVAL" (seconds 5);
    };
    rate_limit = record {
      max_per_second_per_channel = env_int_or_default "RATE_LIMIT_PER_SECOND" (pos 100);
      burst_size = env_int_or_default "RATE_LIMIT_BURST" (pos 100);
    };
    tracing = record {
      enabled = env_bool_or_default "TRACING_ENABLED" true;
      endpoint = env_or_default "TRACING_ENDPOINT" "localhost:4317";
      service_name = env_or_default "TRACING_SERVICE_NAME" "notification-system";
    };
  }

-- A number below 2^31 keeps its value.
to_int32-small : (n : ℕ) → n < 2 ^ 31 → to_int32 (pos n) ≡ pos n
unfolding to_int32
to_int32-small n small = ground arith

-- The conversion does not see a multiple of 2^32.
to_int32-wraps : (n : ℕ) → to_int32 (pos (n + 2 ^ 32)) ≡ to_int32 (pos n)
unfolding to_int32
to_int32-wraps n = ground arith
