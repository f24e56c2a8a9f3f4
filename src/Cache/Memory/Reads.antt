-- ===== src/Cache/Memory/Reads.antt =====
-- What a client of the cache in memory reads.
use hermes_waf.Prelude.{
  ℕ, ◌+◌, ◌≤◌, Str, ◌≡◌, refl, true, false, Option, none, some, arith, leb, ◌==◌, if◌then◌else◌,
  Bool-cases, inl, inr,
}
use hermes_waf.Prelude.Dict.{lookup, holds, lookup-insert, lookup-delete, lookup-sweep}
use hermes_waf.Cache.Memory.{
  CacheItem, MemoryCache, Dest, write, is_expired, read_item, is_live, set, get, delete_key, exists,
  cleanup,
}

module _ {V : Type 0} where
  -- After `Set` of one key, `Get` of that key writes the value until the time to live has passed
  -- and leaves the destination alone after that; `Get` of any other key does as before.
  pub get-set :
      (now later : ℕ) (key j : Str) (v : V) (dest : Dest V) (c : MemoryCache V)
      → get later j dest (set now key v c) ≡ (
          if key == j
          then (if leb later (now + c.ttl) then write v dest else dest)
          else get later j dest c)
  unfolding get set
  get-set now later key j v dest c =
      rw lookup-insert
        (elim (Bool-cases (key == j)) [ inl same ↦ rw same (ground arith) | inr other ↦ rw other ])

  -- After `Delete` of a key it reads as missing, and any other key reads as before.
  pub get-delete_key :
      (now : ℕ) (key j : Str) (dest : Dest V) (c : MemoryCache V)
      → get now j dest (delete_key key c) ≡ (if key == j then dest else get now j dest c)
  unfolding get delete_key
  get-delete_key now key j dest c =
      rw lookup-delete (elim (Bool-cases (key == j)) [ inl same ↦ rw same | inr other ↦ rw other ])

  read_item-swept :
      (now later : ℕ) (o : Option (CacheItem V)) (dest : Dest V)
      → now ≤ later
      → read_item later (if holds (is_expired now) o then none else o) dest ≡ read_item later o dest
  read_item-swept now later none dest h = refl
  read_item-swept now later (some item) dest h = ground arith

  is_live-swept :
      (now later : ℕ) (o : Option (CacheItem V))
      → now ≤ later
      → is_live later (if holds (is_expired now) o then none else o) ≡ is_live later o
  is_live-swept now later none h = refl
  is_live-swept now later (some item) h = ground arith

  -- A cleanup is seen by no later `Get` or `Exists`.
  pub get-cleanup :
      (now later : ℕ) (key : Str) (dest : Dest V) (c : MemoryCache V)
      → now ≤ later
      → (get later key dest (cleanup now c) ≡ get later key dest c)
        × (exists later key (cleanup now c) ≡ exists later key c)
  unfolding get exists cleanup
  get-cleanup now later key dest c h = (
    rw lookup-sweep (read_item-swept now later (lookup key c.items) dest h),
    rw lookup-sweep (is_live-swept now later (lookup key c.items) h),
  )

  -- For an item in the map: whenever `Exists` says yes, `Get` writes the item's value; but at the
  -- very instant at which the item expires `Get` still writes it and `Exists` says no.
  pub get-exists :
      (now : ℕ) (key : Str) (item : CacheItem V) (dest : Dest V) (c : MemoryCache V)
      → lookup key c.items ≡ some item
      → (exists now key c ≡ true → get now key dest c ≡ write item.value dest)
        × (get item.expires_at key dest c ≡ write item.value dest)
        × (exists item.expires_at key c ≡ false)
  unfolding get exists
  get-exists now key item dest c h = rw h ((λ e. ground arith), ground arith, ground arith)
