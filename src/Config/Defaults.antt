-- ===== src/Config/Defaults.antt =====
-- What the defaults fill in, and which configurations are accepted.
use hermes_waf.Prelude.{
  Str, bytes, ◌≡◌, ◌≢◌, refl, sym, ◌⊎◌, ◌↔◌, Option, none, some, arith, eq_iff, ◌*◌,
}
use hermes_waf.Prelude.Int64.{Int64}
use hermes_waf.Prelude.Results.{Result, ok, err}
use hermes_waf.Config.{
  Config, ConfigError, str_or, int_or, set_defaults, validate_config, load_config, parsed, checked,
  read,
}

str_or_idem : (s d : Str) → str_or (str_or s d) d ≡ str_or s d
unfolding str_or
str_or_idem s d = ground (arith, eq_iff s (bytes ""))

int_or_idem : (n d : Int64) → int_or (int_or n d) d ≡ int_or n d
unfolding int_or
int_or_idem n d = ground arith

ruleset idem = (str_or_idem, int_or_idem)

-- Setting the defaults a second time changes nothing.
pub set_defaults_idem : (c : Config) → set_defaults (set_defaults c) ≡ set_defaults c
unfolding set_defaults
set_defaults_idem c = simp idem

str_or-ne : (s d : Str) → d ≢ bytes "" → str_or s d ≢ bytes ""
unfolding str_or
str_or-ne s d h = ground (arith, eq_iff s (bytes ""), h)

int_or-ne : (n d : Int64) → d ≢ 0 → int_or n d ≢ 0
unfolding int_or
int_or-ne n d h = ground (arith, h)

-- No setting that has a default is empty or zero.
pub record IsComplete (c : Config) : Type 0 where
  pub server_listen_addr : c.server.listen_addr ≢ bytes ""
  pub server_workers : c.server.workers ≢ 0
  pub server_read_timeout : c.server.read_timeout ≢ 0
  pub server_write_timeout : c.server.write_timeout ≢ 0
  pub server_idle_timeout : c.server.idle_timeout ≢ 0
  pub tls_listen_addr : c.tls.listen_addr ≢ bytes ""
  pub tls_cert_dir : c.tls.cert_dir ≢ bytes ""
  pub tls_http01_addr : c.tls.http01_addr ≢ bytes ""
  pub proxy_proxy_timeout : c.proxy.proxy_timeout ≢ 0
  pub proxy_max_idle_conns : c.proxy.max_idle_conns ≢ 0
  pub proxy_max_idle_conns_host : c.proxy.max_idle_conns_host ≢ 0
  pub waf_request_body_limit : c.waf.request_body_limit ≢ 0
  pub waf_response_body_limit : c.waf.response_body_limit ≢ 0
  pub waf_default_action : c.waf.default_action ≢ bytes ""
  pub cache_type : c.cache.type ≢ bytes ""
  pub cache_prefix : c.cache.prefix ≢ bytes ""
  pub cache_ttl : c.cache.ttl ≢ 0
  pub storage_type : c.storage.type ≢ bytes ""
  pub storage_port : c.storage.port ≢ 0
  pub storage_db_name : c.storage.db_name ≢ bytes ""
  pub storage_ssl_mode : c.storage.ssl_mode ≢ bytes ""
  pub logging_level : c.logging.level ≢ bytes ""
  pub logging_format : c.logging.format ≢ bytes ""

-- The defaults leave no setting empty or zero.
pub set_defaults-IsComplete : (c : Config) → IsComplete (set_defaults c)
unfolding set_defaults
set_defaults-IsComplete c = record {
  server_listen_addr = str_or-ne _ _ (λ e. cc);
  server_workers = int_or-ne _ _ (omega arith);
  server_read_timeout = int_or-ne _ _ (omega arith);
  server_write_timeout = int_or-ne _ _ (omega arith);
  server_idle_timeout = int_or-ne _ _ (omega arith);
  tls_listen_addr = str_or-ne _ _ (λ e. cc);
  tls_cert_dir = str_or-ne _ _ (λ e. cc);
  tls_http01_addr = str_or-ne _ _ (λ e. cc);
  proxy_proxy_timeout = int_or-ne _ _ (omega arith);
  proxy_max_idle_conns = int_or-ne _ _ (omega arith);
  proxy_max_idle_conns_host = int_or-ne _ _ (omega arith);
  waf_request_body_limit = int_or-ne _ _ (omega arith);
  waf_response_body_limit = int_or-ne _ _ (omega arith);
  waf_default_action = str_or-ne _ _ (λ e. cc);
  cache_type = str_or-ne _ _ (λ e. cc);
  cache_prefix = str_or-ne _ _ (λ e. cc);
  cache_ttl = int_or-ne _ _ (omega arith);
  storage_type = str_or-ne _ _ (λ e. cc);
  storage_port = int_or-ne _ _ (omega arith);
  storage_db_name = str_or-ne _ _ (λ e. cc);
  storage_ssl_mode = str_or-ne _ _ (λ e. cc);
  logging_level = str_or-ne _ _ (λ e. cc);
  logging_format = str_or-ne _ _ (λ e. cc);
}

str_or_of_ne : (s d : Str) → s ≢ bytes "" → str_or s d ≡ s
unfolding str_or
str_or_of_ne s d h = ground (arith, eq_iff s (bytes ""), h)

int_or_of_ne : (n d : Int64) → n ≢ 0 → int_or n d ≡ n
unfolding int_or
int_or_of_ne n d h = ground (arith, h)

-- The defaults change nothing that was set: a configuration with no such setting empty or zero
-- stays as it is.
pub set_defaults_of_IsComplete : (c : Config) → IsComplete c → set_defaults c ≡ c
unfolding set_defaults
set_defaults_of_IsComplete c h = λ i. record {
  server = record c.server {
    listen_addr = str_or_of_ne c.server.listen_addr (bytes ":8080") h.server_listen_addr i;
    workers = int_or_of_ne c.server.workers 4 h.server_workers i;
    read_timeout = int_or_of_ne c.server.read_timeout 30 h.server_read_timeout i;
    write_timeout = int_or_of_ne c.server.write_timeout 30 h.server_write_timeout i;
    idle_timeout = int_or_of_ne c.server.idle_timeout 120 h.server_idle_timeout i;
  };
  tls = record c.tls {
    listen_addr = str_or_of_ne c.tls.listen_addr (bytes ":8443") h.tls_listen_addr i;
    cert_dir = str_or_of_ne c.tls.cert_dir (bytes "/opt/vinahost-waf/certs") h.tls_cert_dir i;
    http01_addr = str_or_of_ne c.tls.http01_addr (bytes ":80") h.tls_http01_addr i;
  };
  proxy = record c.proxy {
    proxy_timeout = int_or_of_ne c.proxy.proxy_timeout 60 h.proxy_proxy_timeout i;
    max_idle_conns = int_or_of_ne c.proxy.max_idle_conns 100 h.proxy_max_idle_conns i;
    max_idle_conns_host = int_or_of_ne c.proxy.max_idle_conns_host 10 h.proxy_max_idle_conns_host i;
  };
  waf = record c.waf {
    request_body_limit =
        int_or_of_ne c.waf.request_body_limit (13 * 1024 * 1024) h.waf_request_body_limit i;
    response_body_limit =
        int_or_of_ne c.waf.response_body_limit (512 * 1024) h.waf_response_body_limit i;
    default_action = str_or_of_ne c.waf.default_action (bytes "block") h.waf_default_action i;
  };
  cache = record c.cache {
    type = str_or_of_ne c.cache.type (bytes "memory") h.cache_type i;
    prefix = str_or_of_ne c.cache.prefix (bytes "vinahost-waf:") h.cache_prefix i;
    ttl = int_or_of_ne c.cache.ttl 300 h.cache_ttl i;
  };
  storage = record c.storage {
    type = str_or_of_ne c.storage.type (bytes "memory") h.storage_type i;
    port = int_or_of_ne c.storage.port 5432 h.storage_port i;
    db_name = str_or_of_ne c.storage.db_name (bytes "vinahost_waf") h.storage_db_name i;
    ssl_mode = str_or_of_ne c.storage.ssl_mode (bytes "disable") h.storage_ssl_mode i;
  };
  logging = record c.logging {
    level = str_or_of_ne c.logging.level (bytes "info") h.logging_level i;
    format = str_or_of_ne c.logging.format (bytes "json") h.logging_format i;
  };
}

validate_config_lem :
    (c : Config)
    → (validate_config c ≡ none) ↔ (
        (c.proxy.upstream_url ≢ bytes "")
        × ((c.waf.default_action ≡ bytes "block") ⊎ (c.waf.default_action ≡ bytes "log")))
unfolding validate_config
validate_config_lem c = ground (
  arith,
  eq_iff c.proxy.upstream_url (bytes ""),
  eq_iff c.waf.default_action (bytes "block"),
  eq_iff c.waf.default_action (bytes "log"),
)

-- What `LoadConfig` accepts: the file was read and parsed, the configuration is the parsed one
-- with its defaults, nothing with a default is empty or zero, the upstream is not empty, and the
-- action is "block" or "log".
pub record IsLoaded (parse : Str → Result Str Config) (file : Result Str Str) (c : Config)
    : Type 0 where
  pub text : Str
  pub raw : Config
  pub read_text : file ≡ ok text
  pub parsed_raw : parse text ≡ ok raw
  pub defaulted : c ≡ set_defaults raw
  pub complete : IsComplete c
  pub upstream : c.proxy.upstream_url ≢ bytes ""
  pub action : (c.waf.default_action ≡ bytes "block") ⊎ (c.waf.default_action ≡ bytes "log")

checked-eq-ok :
    (c c' : Config) (e : Option ConfigError) → checked c e ≡ ok c' → (e ≡ none) × (c ≡ c')
checked-eq-ok c c' none h = (refl, cc)
checked-eq-ok c c' (some e) h = cc

module _ (parse : Str → Result Str Config) where
  parsed-IsLoaded :
      (file : Result Str Str) (text : Str) (r : Result Str Config) (c : Config)
      → file ≡ ok text
      → parse text ≡ r
      → parsed r ≡ ok c
      → IsLoaded parse file c
  parsed-IsLoaded file text (err e) c p q h = cc
  parsed-IsLoaded file text (ok raw) c p q h =
      let (fine, same) =
        checked-eq-ok (set_defaults raw) c (validate_config (set_defaults raw)) h in
      let (upstream, action) = (validate_config_lem (set_defaults raw)).0 fine in
      record {
        text = text;
        raw = raw;
        read_text = p;
        parsed_raw = q;
        defaulted = sym same;
        complete = rw (← same) (set_defaults-IsComplete raw);
        upstream = rw (← same) upstream;
        action = rw (← same) action;
      }

  read-IsLoaded :
      (file : Result Str Str) (c : Config) → read parse file ≡ ok c → IsLoaded parse file c
  read-IsLoaded (err e) c h = cc
  read-IsLoaded (ok text) c h = parsed-IsLoaded (ok text) text (parse text) c refl refl h

  read-eq-ok : (file : Result Str Str) (c : Config) → IsLoaded parse file c → read parse file ≡ ok c
  read-eq-ok file c h =
      let valid = (validate_config_lem c).1 (h.upstream, h.action) in
      let valid' : validate_config (set_defaults h.raw) ≡ none = rw (← h.defaulted) valid in
      rw (h.read_text, h.parsed_raw, valid', h.defaulted)

  -- `LoadConfig` returns a configuration exactly if the file can be read and parsed, the
  -- configuration is the parsed one with its defaults, no setting with a default is empty or zero,
  -- the upstream is not empty, and the action is "block" or "log".
  pub load_config-IsLoaded :
      (read_file : Str → Result Str Str) (path : Str) (c : Config)
      → (load_config read_file parse path ≡ ok c) ↔ IsLoaded parse (read_file path) c
  unfolding load_config
  load_config-IsLoaded read_file path c =
      (read-IsLoaded (read_file path) c, read-eq-ok (read_file path) c)
