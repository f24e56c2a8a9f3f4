-- ===== src/Tests/Remote.antt =====
-- The theorems on the caches and storages that are servers, at servers in memory.
use hermes_waf.Prelude.{
  ℕ, Str, bytes, ◌≡◌, ◌↔◌, refl, true, Option, none, some, [], ◌==◌, if◌then◌else◌, arith, ltb,
}
use hermes_waf.Prelude.Dict.{Dict, lookup, insert, delete, lookup-insert, lookup-delete}
use hermes_waf.Prelude.Results.{Result, ok, err}
use hermes_waf.Cache.Redis.{Client, Codec, RedisCache, GetError, redis_nil, set, get, unmarshalled}
use hermes_waf.Cache.Redis.Reads.{ClientLaws, get-set_redis}

abbrev reply : Option Str → Result GetError Str
reply none = err redis_nil
reply (some v) = ok v

abbrev count_keys : Option Str → ℕ
count_keys none = 0
count_keys (some v) = 1

-- A server that is a map and never fails.
abbrev server : Client
server = record {
  State = Dict Str;
  new_client = λ o. [];
  ping = λ s. none;
  set = λ k v ttl s. (none, insert k v s);
  get = λ k s. reply (lookup k s);
  del = λ k s. (none, delete k s);
  exists = λ k s. ok (count_keys (lookup k s));
  close = λ s. (none, s);
}

counted :
    (o : Option Str) (n : ℕ)
    → ◌≡◌ {A = Result Str ℕ} (ok (count_keys o)) (ok n)
    → (ltb 0 n ≡ true) ↔ ((v : Str) × (reply o ≡ ok v))
counted none n h = (λ e. cc, λ (v, e). cc)
counted (some v) n h = (λ e. (v, refl), λ e. ground arith)

server-ClientLaws : ClientLaws server
server-ClientLaws = record {
  get-set = λ k j v ttl s h. ground (arith, lookup-insert j k v s);
  get-del = λ k j s h. ground (arith, lookup-delete j k s);
  exists-get = λ k n s h. counted (lookup k s) n h;
}

-- A value is its text.
abbrev plain : Codec Str (Option Str)
plain = record { marshal = λ v. ok v; unmarshal = λ t d. (none, some t) }

abbrev box : RedisCache server
box = record { client = []; prefix = bytes "vinahost-waf:"; ttl = 300 }

get-set_redis_example :
    (text : Str) × (plain.marshal (bytes "v") ≡ ok text)
    × (get server plain (bytes "k") none (set server plain (bytes "k") (bytes "v") box).1 ≡ (
        if bytes "k" == bytes "k"
        then unmarshalled server plain (plain.unmarshal text none)
        else get server plain (bytes "k") none box))
unfolding set
get-set_redis_example =
    get-set_redis plain server-ClientLaws (bytes "k") (bytes "k") (bytes "v") none box refl
