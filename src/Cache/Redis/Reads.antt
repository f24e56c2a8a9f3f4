-- ===== src/Cache/Redis/Reads.antt =====
-- internal/cache/redis.go: what a client of the cache in Redis reads.
use hermes_waf.Prelude.{
  ℕ, Str, bytes, ◌≡◌, ◌↔◌, refl, true, false, none, some, ◌==◌, eq_iff, if◌then◌else◌, arith, ltb,
  Bool-cases, inl, inr,
}
use hermes_waf.Prelude.Results.{Result, ok, err}
use hermes_waf.Text.Prefixes.{eq-append, Apart}
use hermes_waf.Cache.Redis.{
  Client, Codec, RedisCache, redis_nil, full_key, set, get, delete_key, read_reply, set_marshalled,
  unmarshalled,
}

-- What is relied on of the server while no time to live ends: after a `SET` that succeeds the key
-- holds what was set, after a `DEL` that succeeds it holds nothing, and other keys are not touched.
-- `EXISTS` counts a key exactly if `GET` finds it.
pub record ClientLaws (c : Client) : Type 0 where
  pub get-set :
      (k j v : Str) (ttl : ℕ) (s : c.State)
      → (c.set k v ttl s).0 ≡ none
      → c.get j (c.set k v ttl s).1 ≡ (if k == j then ok v else c.get j s)
  pub get-del :
      (k j : Str) (s : c.State)
      → (c.del k s).0 ≡ none
      → c.get j (c.del k s).1 ≡ (if k == j then err redis_nil else c.get j s)
  pub exists-get :
      (k : Str) (n : ℕ) (s : c.State)
      → c.exists k s ≡ ok n
      → (ltb 0 n ≡ true) ↔ ((v : Str) × (c.get k s ≡ ok v))

module _ {c : Client} {V D : Type 0} (j : Codec V D) (laws : ClientLaws c) where
  -- After a `Set` that succeeds the value was marshalled, and `Get` of the key hands that text to
  -- `json.Unmarshal`; `Get` of any other key does as before. No time to live ends in between: the
  -- server obeys the laws that `ClientLaws` states.
  pub get-set_redis :
      (key i : Str) (v : V) (dest : D) (r : RedisCache c)
      → (set c j key v r).0 ≡ none
      → (text : Str) × (j.marshal v ≡ ok text)
        × (get c j i dest (set c j key v r).1
            ≡ (if key == i then unmarshalled c j (j.unmarshal text dest) else get c j i dest r))
  unfolding set get
  get-set_redis key i v dest r h = go (j.marshal v) refl h
    where
      go :
          (m : Result Str Str)
          → j.marshal v ≡ m
          → (set_marshalled c j m key r).0 ≡ none
          → (text : Str) × (m ≡ ok text)
            × (get c j i dest (set_marshalled c j m key r).1
                ≡ (if key == i then unmarshalled c j (j.unmarshal text dest) else get c j i dest r))
      go (err e) m h = cc
      go (ok text) m h =
          let stored =
            laws.get-set (full_key r.prefix key) (full_key r.prefix i) text r.ttl r.client
              (ground arith) in
          (
            text,
            refl,
            rw (stored, eq-append r.prefix key i)
                (elim (Bool-cases (key == i)) [ inl e ↦ rw e | inr e ↦ rw e ]),
          )

  -- After a `Delete` that succeeds `Get` of the key fails with "cache miss: key not found" and leaves
  -- the destination alone; `Get` of any other key does as before.
  pub get-delete_redis :
      (key i : Str) (dest : D) (r : RedisCache c)
      → (delete_key c key r).0 ≡ none
      → get c j i dest (delete_key c key r).1
        ≡ (if key == i then (some (bytes "cache miss: key not found"), dest) else get c j i dest r)
  unfolding get delete_key
  get-delete_redis key i dest r h =
      let gone =
        laws.get-del (full_key r.prefix key) (full_key r.prefix i) r.client (ground arith) in
      rw (gone, eq-append r.prefix key i)
        (elim (Bool-cases (key == i)) [ inl e ↦ rw e | inr e ↦ rw e ])

  -- Two caches on one server whose prefixes do not continue one another do not see each other's
  -- writes: what one sets or deletes with success, the other reads as before.
  pub get-Apart :
      (key i : Str) (v : V) (dest : D) (r : RedisCache c) (prefix : Str)
      → Apart r.prefix prefix
      → ((set c j key v r).0 ≡ none
          → get c j i dest (record (set c j key v r).1 { prefix = prefix })
            ≡ get c j i dest (record r { prefix = prefix }))
        × ((delete_key c key r).0 ≡ none
            → get c j i dest (record (delete_key c key r).1 { prefix = prefix })
              ≡ get c j i dest (record r { prefix = prefix }))
  unfolding set get delete_key
  get-Apart key i v dest r prefix apart = (set_apart (j.marshal v), del_apart)
    where
      other : (full_key r.prefix key == full_key prefix i) ≡ false
      other = ground (arith, eq_iff (full_key r.prefix key) (full_key prefix i), apart key i)

      set_apart :
          (m : Result Str Str)
          → (set_marshalled c j m key r).0 ≡ none
          → read_reply c j (c.get (full_key prefix i) (set_marshalled c j m key r).1.client) dest
            ≡ read_reply c j (c.get (full_key prefix i) r.client) dest
      set_apart (err e) h = cc
      set_apart (ok text) h = rw (
        laws.get-set (full_key r.prefix key) (full_key prefix i) text r.ttl r.client (ground arith),
        other,
      )

      del_apart :
          (delete_key c key r).0 ≡ none
          → get c j i dest (record (delete_key c key r).1 { prefix = prefix })
            ≡ get c j i dest (record r { prefix = prefix })
      del_apart h =
          rw (
            laws.get-del (full_key r.prefix key) (full_key prefix i) r.client (ground arith),
            other,
          )
