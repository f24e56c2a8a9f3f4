-- ===== src/Storage/Memory.antt =====
-- internal/storage/memory.go: the storage in memory, an instance of the interface.
use hermes_waf.Prelude.{
  Str, ◌≡◌, refl, Option, none, some, List, [], ◌∷◌, arith, if◌then◌else◌, eq_iff, eq_refl, ◌==◌,
  Bool-cases, inl, inr,
}
use hermes_waf.Prelude.Dict.{
  Dict, lookup, insert, delete, values, is_some, lookup-insert, lookup-delete,
}
use hermes_waf.Prelude.Results.{Result, ok, err}
use hermes_waf.Storage.{
  TenantData, StorageError, err_tenant_not_found, Storage, StorageLaws, IsMap, records_of,
  or_not_found, record_list,
}

pub record MemoryStore : Type 0 where
  pub tenants : Dict TenantData

abbrev pub new_memory_store : MemoryStore
new_memory_store = record { tenants = [] }

unfoldable pub save_tenant : TenantData → MemoryStore → Option StorageError × MemoryStore
save_tenant d s = (none, record { tenants = insert d.id d s.tenants })

unfoldable pub get_tenant : Str → MemoryStore → Result StorageError TenantData
get_tenant id s = or_not_found (lookup id s.tenants)

-- In the order of the representation: Go's is random.
unfoldable pub list_tenants : MemoryStore → Result StorageError (List TenantData)
list_tenants s = ok (values s.tenants)

unfoldable pub delete_tenant : Str → MemoryStore → Option StorageError × MemoryStore
delete_tenant id s =
    if is_some (lookup id s.tenants)
    then (none, record { tenants = delete id s.tenants })
    else (some err_tenant_not_found, s)

-- Each record stands under its own ID, and no ID stands twice.
abbrev AreKeyed : Dict TenantData → Type 0
AreKeyed [] = Unit
AreKeyed ((k, d) ∷ m) = (d.id ≡ k) × (lookup k m ≡ none) × AreKeyed m

pub record IsKeyed (s : MemoryStore) : Type 0 where
  pub keyed : AreKeyed s.tenants

AreKeyed-insert : (d : TenantData) (m : Dict TenantData) → AreKeyed m → AreKeyed (insert d.id d m)
unfolding insert lookup
AreKeyed-insert d [] h = (refl, refl, tt)
AreKeyed-insert d ((k, e) ∷ m) (p, absent, h) = elim (Bool-cases (k == d.id)) [
  | inl same ↦ let e : k ≡ d.id = (eq_iff k d.id).0 same in rw same (refl, rw (← e) absent, h)
  | inr other ↦ rw other (
    p,
    ground (arith, lookup-insert k d.id d m, eq_iff d.id k, eq_iff k d.id),
    AreKeyed-insert d m h,
  )
]

AreKeyed-delete : (id : Str) (m : Dict TenantData) → AreKeyed m → AreKeyed (delete id m)
unfolding delete
AreKeyed-delete id [] h = tt
AreKeyed-delete id ((k, d) ∷ m) (p, absent, h) = elim (Bool-cases (k == id)) [
  | inl same ↦ rw same (AreKeyed-delete id m h)
  | inr other ↦ rw other (p, ground (arith, lookup-delete k id m), AreKeyed-delete id m h)
]

lookup-AreKeyed :
    (id : Str) (d : TenantData) (m : Dict TenantData)
    → AreKeyed m
    → lookup id m ≡ some d
    → d.id ≡ id
unfolding lookup
lookup-AreKeyed id d [] h e = cc
lookup-AreKeyed id d ((k, x) ∷ m) (p, _, h) e =
    ground (arith, eq_iff k id, lookup-AreKeyed id d m h)

records_of-values :
    (id : Str) (m : Dict TenantData)
    → AreKeyed m
    → records_of id (values m) ≡ record_list (lookup id m)
unfolding lookup records_of
records_of-values id [] h = refl
records_of-values id ((k, d) ∷ m) (p, absent, h) = elim (Bool-cases (k == id)) [
  | inl same ↦
      let e : k ≡ id = (eq_iff k id).0 same in
      let gone : lookup id m ≡ none = rw (← e) absent in
      rw (p, same, records_of-values id m h, gone) refl
  | inr other ↦ rw (p, other, records_of-values id m h) refl
]

save-IsKeyed : (d : TenantData) (s : MemoryStore) → IsKeyed s → IsKeyed (save_tenant d s).1
unfolding save_tenant
save-IsKeyed d s h = record { keyed = AreKeyed-insert d s.tenants h.keyed }

delete-IsKeyed : (id : Str) (s : MemoryStore) → IsKeyed s → IsKeyed (delete_tenant id s).1
unfolding delete_tenant
delete-IsKeyed id s h = elim (Bool-cases (is_some (lookup id s.tenants))) [
  | inl there ↦ rw there (record { keyed = AreKeyed-delete id s.tenants h.keyed })
  | inr absent ↦ rw absent h
]

get_tenant-id :
    (id : Str) (d : TenantData) (s : MemoryStore) → IsKeyed s → get_tenant id s ≡ ok d → d.id ≡ id
unfolding get_tenant
get_tenant-id id d s h p = ground (arith, lookup-AreKeyed id d s.tenants h.keyed)

get_tenant-save_tenant :
    (d : TenantData) (s : MemoryStore)
    → (save_tenant d s).0 ≡ none
    → get_tenant d.id (save_tenant d s).1 ≡ ok d
unfolding get_tenant save_tenant
get_tenant-save_tenant d s _ = ground (arith, lookup-insert d.id d.id d s.tenants, eq_refl d.id)

get_tenant-delete_tenant :
    (id : Str) (s : MemoryStore)
    → (delete_tenant id s).0 ≡ none
    → (e : StorageError) × (get_tenant id (delete_tenant id s).1 ≡ err e)
unfolding get_tenant delete_tenant
get_tenant-delete_tenant id s h =
    (err_tenant_not_found, ground (arith, lookup-delete id id s.tenants, eq_refl id))

abbrev pub memory_store : Storage
memory_store = record {
  State = MemoryStore;
  save_tenant = save_tenant;
  get_tenant = get_tenant;
  delete_tenant = delete_tenant;
  list_tenants = list_tenants;
}

new_memory_store-IsKeyed : IsKeyed new_memory_store
new_memory_store-IsKeyed = record { keyed = tt }

-- What the manager relies on.
pub memory_store-StorageLaws : (laws : StorageLaws memory_store) × laws.IsValid new_memory_store
memory_store-StorageLaws = (
  record {
    IsValid = IsKeyed;
    save-IsValid = save-IsKeyed;
    delete-IsValid = delete-IsKeyed;
    get-id = get_tenant-id;
    get-save = get_tenant-save_tenant;
    get-delete = get_tenant-delete_tenant;
  },
  new_memory_store-IsKeyed,
)

-- The record under an ID.
abbrev pub view : Str → MemoryStore → Option TenantData
view id s = lookup id s.tenants

delete_tenant-error :
    (id : Str) (s : MemoryStore)
    → (delete_tenant id s).0 ≡ (if is_some (view id s) then none else some err_tenant_not_found)
unfolding delete_tenant
delete_tenant-error id s = ground arith

view-delete_tenant :
    (j id : Str) (s : MemoryStore)
    → view j (delete_tenant id s).1 ≡ (if id == j then none else view j s)
unfolding delete_tenant
view-delete_tenant j id s = ground (arith, lookup-delete j id s.tenants, eq_iff id j)

get_tenant-view : (id : Str) (s : MemoryStore) → get_tenant id s ≡ or_not_found (view id s)
unfolding get_tenant
get_tenant-view id s = refl

view-save_tenant :
    (j : Str) (d : TenantData) (s : MemoryStore)
    → view j (save_tenant d s).1 ≡ (if d.id == j then some d else view j s)
unfolding save_tenant
view-save_tenant j d s = lookup-insert j d.id d s.tenants

save_tenant-error : (d : TenantData) (s : MemoryStore) → (save_tenant d s).0 ≡ none
unfolding save_tenant
save_tenant-error d s = refl

list_tenants-view :
    (s : MemoryStore)
    → IsKeyed s
    → (ds : List TenantData) × (list_tenants s ≡ ok ds)
      × ((id : Str) → records_of id ds ≡ record_list (view id s))
unfolding list_tenants
list_tenants-view s h = (values s.tenants, refl, λ id. records_of-values id s.tenants h.keyed)

-- The storage in memory is a map from IDs to records, empty when it is new. `SaveTenant` never
-- fails, puts the record under its ID and leaves the other IDs. `DeleteTenant` fails with
-- `ErrTenantNotFound` exactly when the ID has no record, after it the ID has none, and the other IDs
-- keep theirs. `GetTenant` returns the record of the ID, or `ErrTenantNotFound` if there is none. In
-- every state that these operations reach from a new storage, `ListTenants` never fails and has the
-- record of each ID that has one once, and no other.
pub memory_store-IsMap :
    IsMap memory_store IsKeyed view
    × IsKeyed new_memory_store
    × ((id : Str) → view id new_memory_store ≡ none)
unfolding lookup
memory_store-IsMap = (
  record {
    save-IsValid = save-IsKeyed;
    delete-IsValid = delete-IsKeyed;
    saved = save_tenant-error;
    view-save = view-save_tenant;
    deleted = delete_tenant-error;
    view-delete = view-delete_tenant;
    got = get_tenant-view;
    listed = list_tenants-view;
  },
  new_memory_store-IsKeyed,
  λ id. refl,
)
