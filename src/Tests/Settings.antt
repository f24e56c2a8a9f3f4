-- ===== src/Tests/Settings.antt =====
-- The configuration's theorems at a small file.
use hermes_waf.Prelude.{Str, bytes, ◌≡◌, false, ◌↔◌, []}
use hermes_waf.Prelude.Results.{Result, ok}
use hermes_waf.Config.{Config, set_defaults, load_config}
use hermes_waf.Config.Defaults.{IsLoaded, load_config-IsLoaded}

-- Nothing is set but the upstream.
abbrev raw : Config
raw = record {
  server = record {
    listen_addr = [];
    workers = 0;
    read_timeout = 0;
    write_timeout = 0;
    idle_timeout = 0;
  };
  tls = record {
    enabled = false;
    listen_addr = [];
    cert_dir = [];
    acme_email = [];
    acme_dir_url = [];
    accept_tos = false;
    http01_addr = [];
  };
  proxy = record {
    upstream_url = bytes "http://up";
    proxy_timeout = 0;
    max_idle_conns = 0;
    max_idle_conns_host = 0;
    enable_https = false;
    tls_cert_file = [];
    tls_key_file = [];
  };
  waf = record {
    rules_files = [];
    request_body_access = false;
    request_body_limit = 0;
    response_body_access = false;
    response_body_limit = 0;
    audit_log_enabled = false;
    audit_log_file = [];
    debug_log_enabled = false;
    debug_log_level = 0;
    default_action = [];
  };
  cache = record {
    enabled = false;
    type = [];
    addr = [];
    password = [];
    db = 0;
    prefix = [];
    ttl = 0;
  };
  storage = record {
    enabled = false;
    type = [];
    host = [];
    port = 0;
    user = [];
    password = [];
    db_name = [];
    ssl_mode = [];
  };
  logging = record { level = []; format = []; output_path = [] };
}

abbrev file_text : Str → Result Str Str
file_text path = ok path

abbrev parse_text : Str → Result Str Config
parse_text text = ok raw

load_config-IsLoaded_example :
    (load_config file_text parse_text (bytes "waf.yaml") ≡ ok (set_defaults raw))
    ↔ IsLoaded parse_text (file_text (bytes "waf.yaml")) (set_defaults raw)
load_config-IsLoaded_example =
    load_config-IsLoaded parse_text file_text (bytes "waf.yaml") (set_defaults raw)
