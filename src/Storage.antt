-- ===== src/Storage.antt =====
-- internal/storage/storage.go: the record that is stored, the interface `Storage`, and what its
-- clients rely on.
pub mod Memory
pub mod Postgres
use hermes_waf.Prelude.{ℕ, Str, Bool, Option, none, some, List, [], ◌∷◌, ◌≡◌, ◌==◌, if◌then◌else◌}
use hermes_waf.Prelude.Dict.{Dict, is_some}
use hermes_waf.Prelude.Results.{Result, ok, err}
use hermes_waf.Tenant.{TenantConfig}

-- A value of type `interface{}`, by its dynamic type: none, `*TenantConfig`, `map[string]string`,
-- or any other, such as the one that `json.Unmarshal` decodes the text into.
pub data Any : Type 0 where
  null : Any
  tenant_config : Option TenantConfig → Any
  string_map : Option (Dict Str) → Any
  decoded : Str → Any

pub record TenantData : Type 0 where
  pub id : Str
  pub name : Str
  pub domains : List Str
  pub enabled : Bool
  pub rules : List Str
  pub config : Any
  pub metadata : Any
  pub created_at : ℕ
  pub updated_at : ℕ

pub data StorageError : Type 0 where
  err_tenant_not_found : StorageError
  other : Str → StorageError

-- The interface. A write returns its error, if any, and the state that it leaves.
pub record Storage : Type 1 where
  pub State : Type 0
  pub save_tenant : TenantData → State → Option StorageError × State
  pub get_tenant : Str → State → Result StorageError TenantData
  pub delete_tenant : Str → State → Option StorageError × State
  pub list_tenants : State → Result StorageError (List TenantData)

-- What clients rely on, from a state that the storage itself can reach.
pub record StorageLaws (s : Storage) : Type 1 where
  pub IsValid : s.State → Type 0
  pub save-IsValid : (d : TenantData) (st : s.State) → IsValid st → IsValid (s.save_tenant d st).1
  pub delete-IsValid : (id : Str) (st : s.State) → IsValid st → IsValid (s.delete_tenant id st).1
  pub get-id :
      (id : Str) (d : TenantData) (st : s.State)
      → IsValid st
      → s.get_tenant id st ≡ ok d
      → d.id ≡ id
  pub get-save :
      (d : TenantData) (st : s.State)
      → (s.save_tenant d st).0 ≡ none
      → s.get_tenant d.id (s.save_tenant d st).1 ≡ ok d
  pub get-delete :
      (id : Str) (st : s.State)
      → (s.delete_tenant id st).0 ≡ none
      → (e : StorageError) × (s.get_tenant id (s.delete_tenant id st).1 ≡ err e)

-- The records of an ID, in their order.
unfoldable pub records_of : Str → List TenantData → List TenantData
records_of id [] = []
records_of id (d ∷ ds) = let rest = records_of id ds in if d.id == id then d ∷ rest else rest

abbrev pub or_not_found : Option TenantData → Result StorageError TenantData
or_not_found none = err err_tenant_not_found
or_not_found (some d) = ok d

abbrev pub record_list : Option TenantData → List TenantData
record_list none = []
record_list (some d) = d ∷ []

-- The storage is a map from IDs to records, `view`, in every state from a valid one on: a write
-- changes what stands under its ID and nothing else, and a list has each record once.
pub record IsMap (s : Storage) (IsValid : s.State → Type 0)
    (view : Str → s.State → Option TenantData) : Type 0 where
  pub save-IsValid : (d : TenantData) (st : s.State) → IsValid st → IsValid (s.save_tenant d st).1
  pub delete-IsValid : (id : Str) (st : s.State) → IsValid st → IsValid (s.delete_tenant id st).1
  pub saved : (d : TenantData) (st : s.State) → (s.save_tenant d st).0 ≡ none
  pub view-save :
      (j : Str) (d : TenantData) (st : s.State)
      → view j (s.save_tenant d st).1 ≡ (if d.id == j then some d else view j st)
  pub deleted :
      (id : Str) (st : s.State)
      → (s.delete_tenant id st).0
        ≡ (if is_some (view id st) then none else some err_tenant_not_found)
  pub view-delete :
      (j id : Str) (st : s.State)
      → view j (s.delete_tenant id st).1 ≡ (if id == j then none else view j st)
  pub got : (id : Str) (st : s.State) → s.get_tenant id st ≡ or_not_found (view id st)
  pub listed :
      (st : s.State)
      → IsValid st
      → (ds : List TenantData) × (s.list_tenants st ≡ ok ds)
        × ((id : Str) → records_of id ds ≡ record_list (view id st))
