-- ===== src/Config.antt =====
-- internal/config/config.go: the configuration, its defaults and its validation. Reading the file
-- and YAML are parameters.
pub mod Defaults
use hermes_waf.Prelude.{
  Str, bytes, Bool, true, false, Option, none, some, List, ◌*◌, ◌&&◌, not, ◌==◌, eqb, if◌then◌else◌,
}
use hermes_waf.Prelude.Int64.{Int64}
use hermes_waf.Prelude.Results.{Result, ok, err}

pub record TlsConfig : Type 0 where
  pub enabled : Bool
  pub listen_addr : Str
  pub cert_dir : Str
  pub acme_email : Str
  pub acme_dir_url : Str
  pub accept_tos : Bool
  pub http01_addr : Str

pub record ServerConfig : Type 0 where
  pub listen_addr : Str
  pub workers : Int64
  pub read_timeout : Int64
  pub write_timeout : Int64
  pub idle_timeout : Int64

pub record ProxyConfig : Type 0 where
  pub upstream_url : Str
  pub proxy_timeout : Int64
  pub max_idle_conns : Int64
  pub max_idle_conns_host : Int64
  pub enable_https : Bool
  pub tls_cert_file : Str
  pub tls_key_file : Str

pub record WafConfig : Type 0 where
  pub rules_files : List Str
  pub request_body_access : Bool
  pub request_body_limit : Int64
  pub response_body_access : Bool
  pub response_body_limit : Int64
  pub audit_log_enabled : Bool
  pub audit_log_file : Str
  pub debug_log_enabled : Bool
  pub debug_log_level : Int64
  pub default_action : Str

pub record CacheConfig : Type 0 where
  pub enabled : Bool
  pub type : Str
  pub addr : Str
  pub password : Str
  pub db : Int64
  pub prefix : Str
  pub ttl : Int64

pub record StorageConfig : Type 0 where
  pub enabled : Bool
  pub type : Str
  pub host : Str
  pub port : Int64
  pub user : Str
  pub password : Str
  pub db_name : Str
  pub ssl_mode : Str

pub record LoggingConfig : Type 0 where
  pub level : Str
  pub format : Str
  pub output_path : Str

pub record Config : Type 0 where
  pub server : ServerConfig
  pub tls : TlsConfig
  pub proxy : ProxyConfig
  pub waf : WafConfig
  pub cache : CacheConfig
  pub storage : StorageConfig
  pub logging : LoggingConfig

-- `if s == "" { s = d }` and `if n == 0 { n = d }`
unfoldable pub str_or : Str → Str → Str
str_or s d = if s == bytes "" then d else s

unfoldable pub int_or : Int64 → Int64 → Int64
int_or n d = if eqb n 0 then d else n

unfoldable pub server_defaults : ServerConfig → ServerConfig
server_defaults c = record c {
  listen_addr = str_or c.listen_addr (bytes ":8080");
  workers = int_or c.workers 4;
  read_timeout = int_or c.read_timeout 30;
  write_timeout = int_or c.write_timeout 30;
  idle_timeout = int_or c.idle_timeout 120;
}

unfoldable pub tls_defaults : TlsConfig → TlsConfig
tls_defaults c = record c {
  listen_addr = str_or c.listen_addr (bytes ":8443");
  cert_dir = str_or c.cert_dir (bytes "/opt/vinahost-waf/certs");
  http01_addr = str_or c.http01_addr (bytes ":80");
}

unfoldable pub proxy_defaults : ProxyConfig → ProxyConfig
proxy_defaults c = record c {
  proxy_timeout = int_or c.proxy_timeout 60;
  max_idle_conns = int_or c.max_idle_conns 100;
  max_idle_conns_host = int_or c.max_idle_conns_host 10;
}

unfoldable pub waf_defaults : WafConfig → WafConfig
waf_defaults c = record c {
  request_body_limit = int_or c.request_body_limit (13 * 1024 * 1024);
  response_body_limit = int_or c.response_body_limit (512 * 1024);
  default_action = str_or c.default_action (bytes "block");
}

unfoldable pub cache_defaults : CacheConfig → CacheConfig
cache_defaults c = record c {
  type = str_or c.type (bytes "memory");
  prefix = str_or c.prefix (bytes "vinahost-waf:");
  ttl = int_or c.ttl 300;
}

unfoldable pub storage_defaults : StorageConfig → StorageConfig
storage_defaults c = record c {
  type = str_or c.type (bytes "memory");
  port = int_or c.port 5432;
  db_name = str_or c.db_name (bytes "vinahost_waf");
  ssl_mode = str_or c.ssl_mode (bytes "disable");
}

unfoldable pub logging_defaults : LoggingConfig → LoggingConfig
logging_defaults c = record c {
  level = str_or c.level (bytes "info");
  format = str_or c.format (bytes "json");
}

-- `setDefaults`
unfoldable pub set_defaults : Config → Config
unfolding server_defaults tls_defaults proxy_defaults waf_defaults cache_defaults storage_defaults
    logging_defaults
set_defaults c = record {
  server = server_defaults c.server;
  tls = tls_defaults c.tls;
  proxy = proxy_defaults c.proxy;
  waf = waf_defaults c.waf;
  cache = cache_defaults c.cache;
  storage = storage_defaults c.storage;
  logging = logging_defaults c.logging;
}

pub data ConfigError : Type 0 where
  read_failed parse_failed : Str → ConfigError
  upstream_url_required bad_default_action : ConfigError

-- `validateConfig`; `none` is the `nil` error
unfoldable pub validate_config : Config → Option ConfigError
validate_config c =
    if c.proxy.upstream_url == bytes ""
    then some upstream_url_required
    else if not (c.waf.default_action == bytes "block") && not (c.waf.default_action == bytes "log")
    then some bad_default_action
    else none

abbrev checked : Config → Option ConfigError → Result ConfigError Config
checked c none = ok c
checked c (some e) = err e

abbrev parsed : Result Str Config → Result ConfigError Config
parsed (err e) = err (parse_failed e)
parsed (ok c) = checked (set_defaults c) (validate_config (set_defaults c))

abbrev read : (Str → Result Str Config) → Result Str Str → Result ConfigError Config
read parse (err e) = err (read_failed e)
read parse (ok text) = parsed (parse text)

-- `LoadConfig`, with `os.ReadFile` and `yaml.Unmarshal` into a zero `Config`
unfoldable pub load_config :
    (read_file : Str → Result Str Str) (parse : Str → Result Str Config)
    → Str
    → Result ConfigError Config
load_config read_file parse path = read parse (read_file path)
