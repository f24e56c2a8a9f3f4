-- ===== src/Cache/Redis.antt =====
-- internal/cache/redis.go: the cache in Redis. The client and the encoding of values as JSON are
-- parameters: `Client` has the calls of the Redis client, and `Codec` `json.Marshal` and
-- `json.Unmarshal`. Log lines are left out.
pub mod Reads
use hermes_waf.Prelude.{
  ℕ, ◌*◌, Str, bytes, Bool, true, Option, none, some, ◌++◌, ◌==◌, ltb, eqb, if◌then◌else◌,
}
use hermes_waf.Prelude.Results.{Result, ok, err}
use hermes_waf.Cache.{Cache}

-- `redis.Options`
pub record Options : Type 0 where
  pub addr : Str
  pub password : Str
  pub db : ℕ

-- The error of `Get`: `redis.Nil` for a key that is not there, or another.
pub data GetError : Type 0 where
  redis_nil : GetError
  get_error : Str → GetError

-- A call of the client returns its error, if any, and the state of the server.
pub record Client : Type 1 where
  pub State : Type 0
  pub new_client : Options → State
  pub ping : State → Option Str
  pub set : Str → Str → ℕ → State → Option Str × State
  pub get : Str → State → Result GetError Str
  pub del : Str → State → Option Str × State
  pub exists : Str → State → Result Str ℕ
  pub close : State → Option Str × State

-- Values `V`, and what a destination holds, `D`. A failing `unmarshal` may have written in part.
pub record Codec (V D : Type 0) : Type 0 where
  pub marshal : V → Result Str Str
  pub unmarshal : Str → D → Option Str × D

-- `Config`
pub record RedisConfig : Type 0 where
  pub addr : Str
  pub password : Str
  pub db : ℕ
  pub prefix : Str
  pub ttl : ℕ

pub record RedisCache (c : Client) : Type 0 where
  pub client : c.State
  pub prefix : Str
  pub ttl : ℕ

-- `5 * time.Minute`, in nanoseconds
abbrev default_ttl : ℕ
default_ttl = 5 * 60 * 1000000000

-- `fmt.Errorf` with `%w` for an error
abbrev wrapped : Str → Option Str → Option Str
wrapped text none = none
wrapped text (some e) = some (text ++ e)

abbrev pub full_key : Str → Str → Str
full_key prefix key = prefix ++ key

module _ (c : Client) where
  abbrev connected : Option Str → RedisConfig → c.State → Result Str (RedisCache c)
  connected (some e) cfg s = err (bytes "failed to connect to Redis: " ++ e)
  connected none cfg s = ok (record {
    client = s;
    prefix = if cfg.prefix == bytes "" then bytes "vinahost-waf:" else cfg.prefix;
    ttl = if eqb cfg.ttl 0 then default_ttl else cfg.ttl;
  })

  -- `NewRedisCache`
  unfoldable pub new_redis_cache : RedisConfig → Result Str (RedisCache c)
  new_redis_cache cfg =
      let s = c.new_client (record { addr = cfg.addr; password = cfg.password; db = cfg.db }) in
      connected (c.ping s) cfg s

  -- `Delete`
  unfoldable pub delete_key : Str → RedisCache c → Option Str × RedisCache c
  delete_key key r =
      let (e, s) = c.del (full_key r.prefix key) r.client in
      (wrapped (bytes "failed to delete cache: ") e, record r { client = s })

  abbrev exists_result : Result Str ℕ → Result Str Bool
  exists_result (err e) = err (bytes "failed to check cache: " ++ e)
  exists_result (ok n) = ok (ltb 0 n)

  -- `Exists`
  unfoldable pub exists : Str → RedisCache c → Result Str Bool
  exists key r = exists_result (c.exists (full_key r.prefix key) r.client)

  -- `Close`
  unfoldable pub close : RedisCache c → Option Str × RedisCache c
  close r = let (e, s) = c.close r.client in (e, record r { client = s })

  module _ {V D : Type 0} (j : Codec V D) where
    abbrev set_marshalled : Result Str Str → Str → RedisCache c → Option Str × RedisCache c
    set_marshalled (err e) key r = (some (bytes "failed to marshal value: " ++ e), r)
    set_marshalled (ok text) key r =
        let (e, s) = c.set (full_key r.prefix key) text r.ttl r.client in
        (wrapped (bytes "failed to set cache: ") e, record r { client = s })

    -- `Set`
    unfoldable pub set : Str → V → RedisCache c → Option Str × RedisCache c
    set key v r = set_marshalled (j.marshal v) key r

    abbrev pub unmarshalled : Option Str × D → Option Str × D
    unmarshalled (e, dest) = (wrapped (bytes "failed to unmarshal value: ") e, dest)

    abbrev pub read_reply : Result GetError Str → D → Option Str × D
    read_reply (err redis_nil) dest = (some (bytes "cache miss: key not found"), dest)
    read_reply (err (get_error e)) dest = (some (bytes "failed to get cache: " ++ e), dest)
    read_reply (ok text) dest = unmarshalled (j.unmarshal text dest)

    -- `Get`: the error, if any, and what the destination holds
    unfoldable pub get : Str → D → RedisCache c → Option Str × D
    get key dest r = read_reply (c.get (full_key r.prefix key) r.client) dest

-- The interface.
unfoldable pub redis_cache : (c : Client) {V D : Type 0} → Codec V D → Cache V
unfolding set delete_key exists
redis_cache c j = record {
  State = RedisCache c;
  set = set c j;
  delete = delete_key c;
  exists = exists c;
}
