-- ===== src/Cache/Memory.antt =====
-- internal/cache/memory.go: the cache in memory. A time is a reading of the clock in nanoseconds,
-- handed to each operation, and a `ttl` is a non-negative duration. The goroutine that
-- `NewMemoryCache` starts runs `cleanup` once a minute; here each run is one call.
pub mod Reads
use hermes_waf.Prelude.{
  ℕ, ◌+◌, ◌*◌, Str, Bool, true, false, Option, none, some, [], ltb, eqb, if◌then◌else◌, not,
}
use hermes_waf.Prelude.Dict.{Dict, lookup, insert, delete, sweep}
use hermes_waf.Prelude.Results.{Result, ok, err}
use hermes_waf.Cache.{Cache}

pub record CacheItem (V : Type 0) : Type 0 where
  pub value : V
  pub expires_at : ℕ

pub record MemoryCache (V : Type 0) : Type 0 where
  pub items : Dict (CacheItem V)
  pub ttl : ℕ

-- `5 * time.Minute`
abbrev pub default_ttl : ℕ
default_ttl = 5 * 60 * 1000000000

-- The argument `dest` of `Get`: a pointer to an `interface{}` with what it holds, or any other.
pub data Dest (V : Type 0) : Type 0 where
  any_pointer : Option V → Dest V
  other_pointer : Dest V

-- `if destPtr, ok := dest.(*interface{}); ok { *destPtr = item.value }`
abbrev pub write : {V : Type 0} → V → Dest V → Dest V
write v (any_pointer o) = any_pointer (some v)
write v other_pointer = other_pointer

-- `now.After(item.expiresAt)`
abbrev pub is_expired : {V : Type 0} → ℕ → CacheItem V → Bool
is_expired now item = ltb item.expires_at now

unfoldable pub new_memory_cache : (V : Type 0) → ℕ → MemoryCache V
new_memory_cache V ttl = record { items = []; ttl = if eqb ttl 0 then default_ttl else ttl }

module _ {V : Type 0} where
  -- `Set`, which never fails
  unfoldable pub set : ℕ → Str → V → MemoryCache V → MemoryCache V
  set now key v c = record c {
    items = insert key (record { value = v; expires_at = now + c.ttl }) c.items;
  }

  abbrev pub read_item : ℕ → Option (CacheItem V) → Dest V → Dest V
  read_item now none dest = dest
  read_item now (some item) dest = if is_expired now item then dest else write item.value dest

  -- `Get`, which never fails: a miss leaves `dest` as it is
  unfoldable pub get : ℕ → Str → Dest V → MemoryCache V → Dest V
  get now key dest c = read_item now (lookup key c.items) dest

  -- `Delete`
  unfoldable pub delete_key : Str → MemoryCache V → MemoryCache V
  delete_key key c = record c { items = delete key c.items }

  abbrev pub is_live : ℕ → Option (CacheItem V) → Bool
  is_live now none = false
  is_live now (some item) = ltb now item.expires_at

  -- `Exists`
  unfoldable pub exists : ℕ → Str → MemoryCache V → Bool
  exists now key c = is_live now (lookup key c.items)

  -- One round of `cleanup`.
  unfoldable pub cleanup : ℕ → MemoryCache V → MemoryCache V
  cleanup now c = record c { items = sweep (is_expired now) c.items }

-- The interface, at one reading of the clock.
abbrev pub memory_cache : (V : Type 0) → ℕ → Cache V
memory_cache V now = record {
  State = MemoryCache V;
  set = λ key v c. (none, set now key v c);
  delete = λ key c. (none, delete_key key c);
  exists = λ key c. ok (exists now key c);
}
