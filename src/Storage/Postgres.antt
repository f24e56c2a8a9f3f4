-- ===== src/Storage/Postgres.antt =====
-- internal/storage/postgres.go: the storage in PostgreSQL. `Database` stands for `database/sql`
-- with the driver: it is given a statement and its arguments, and returns the rows as `Scan` reads
-- them. `Json` stands for `encoding/json`.
pub mod Arrays
pub mod Loading
use hermes_waf.Prelude.{
  ℕ, suc, ltb, Str, bytes, Bool, true, false, Option, none, some, List, [], ◌∷◌, ◌++◌, eqb,
  if◌then◌else◌,
}
use hermes_waf.Prelude.Results.{Result, ok, err}
use hermes_waf.Storage.{
  Any, null, decoded, TenantData, StorageError, err_tenant_not_found, other, Storage,
}

-- The statements of the source, each for its text.
pub data Statement : Type 0 where
  create_schema upsert_tenant select_tenant select_tenants delete_by_id : Statement

-- An argument of a statement.
pub data Arg : Type 0 where
  text : Str → Arg
  flag : Bool → Arg
  timestamp : ℕ → Arg

-- What `Scan` stores: the two last texts are `configJSON` and `metadataJSON`.
pub record Row : Type 0 where
  pub id : Str
  pub name : Str
  pub domains : List Str
  pub enabled : Bool
  pub rules : List Str
  pub config_json : Str
  pub metadata_json : Str
  pub created_at : ℕ
  pub updated_at : ℕ

-- The error of `QueryRowContext(…).Scan`.
pub data RowError : Type 0 where
  no_rows : RowError
  row_error : Str → RowError

-- The rows of a query with the error of each `Scan`, and `rows.Err()` after the last.
pub record Rows : Type 0 where
  pub scanned : List (Result Str Row)
  pub last_error : Option Str

-- `exec` returns its error or its result, whose `RowsAffected` may fail in turn.
pub record Database : Type 1 where
  pub State : Type 0
  pub open_dsn : Str → Result Str State
  pub ping : State → Option Str
  pub exec : Statement → List Arg → State → Result Str (Result Str ℕ) × State
  pub query_row : Statement → List Arg → State → Result RowError Row
  pub query : Statement → List Arg → State → Result Str Rows
  pub close : State → Option Str × State

-- `json.Marshal` of an `interface{}`, and `json.Unmarshal` into one: this stores `nil`, a map, a
-- slice, a number, a text or a Boolean, and never a `*TenantConfig` or a `map[string]string`.
pub record Json : Type 0 where
  pub marshal : Any → Result Str Str
  pub unmarshal : Str → Result Str (Option Str)

-- `fmt.Sprintf` of one text between quotes.
abbrev pub quoted : Str → Str
quoted s = b'"' ∷ (s ++ b'"' ∷ [])

-- The loop of `joinStrings` from the index `i` on.
unfoldable pub join_loop : ℕ → Str → List Str → Str
join_loop i result [] = result
join_loop i result (s ∷ ss) =
    join_loop (suc i) ((if ltb 0 i then result ++ bytes "," else result) ++ quoted s) ss

-- `joinStrings`
unfoldable pub join_strings : List Str → Str
unfolding join_loop
join_strings strs = join_loop 0 [] strs

-- An array for PostgreSQL: `fmt.Sprintf("{%s}", joinStrings(strs))`
abbrev pub array : List Str → Str
array strs = b'{' ∷ (join_strings strs ++ b'}' ∷ [])

-- What is stored in the `interface{}`.
abbrev pub any_of : Option Str → Any
any_of none = null
any_of (some v) = decoded v

module _ (db : Database) (j : Json) where
  abbrev opened_ok : Option Str → Result Str (Result Str ℕ) × db.State → Result Str db.State
  opened_ok (some e) r = err (bytes "failed to ping database: " ++ e)
  opened_ok none (err e, s) = err (bytes "failed to migrate database: " ++ e)
  opened_ok none (ok r, s) = ok s

  abbrev opened : Result Str db.State → Result Str db.State
  opened (err e) = err (bytes "failed to connect to database: " ++ e)
  opened (ok s) = opened_ok (db.ping s) (db.exec create_schema [] s)

  -- `NewPostgresStore`, with `migrate`
  unfoldable pub new_postgres_store : Str → Result Str db.State
  new_postgres_store dsn = opened (db.open_dsn dsn)

  abbrev exec_error : Result Str (Result Str ℕ) × db.State → Option StorageError × db.State
  exec_error (err e, s) = (some (other e), s)
  exec_error (ok r, s) = (none, s)

  abbrev save_marshalled :
      TenantData → Result Str Str → Result Str Str → db.State → Option StorageError × db.State
  save_marshalled t (err e) metadata s = (some (other (bytes "failed to marshal config: " ++ e)), s)
  save_marshalled t (ok config) (err e) s =
      (some (other (bytes "failed to marshal metadata: " ++ e)), s)
  save_marshalled t (ok config) (ok metadata) s = exec_error (
      db.exec upsert_tenant
        (text t.id
          ∷ text t.name
          ∷ text (array t.domains)
          ∷ flag t.enabled
          ∷ text (array t.rules)
          ∷ text config
          ∷ text metadata
          ∷ timestamp t.created_at
          ∷ timestamp t.updated_at
          ∷ [])
        s)

  -- `SaveTenant`
  unfoldable pub save_tenant : TenantData → db.State → Option StorageError × db.State
  save_tenant t s = save_marshalled t (j.marshal t.config) (j.marshal t.metadata) s

  -- The record for a row, once both texts are decoded.
  abbrev decoded_row :
      Row → Result Str (Option Str) → Result Str (Option Str) → Result StorageError TenantData
  decoded_row r (err e) metadata = err (other (bytes "failed to unmarshal config: " ++ e))
  decoded_row r (ok config) (err e) = err (other (bytes "failed to unmarshal metadata: " ++ e))
  decoded_row r (ok config) (ok metadata) = ok (record {
    id = r.id;
    name = r.name;
    domains = r.domains;
    enabled = r.enabled;
    rules = r.rules;
    config = any_of config;
    metadata = any_of metadata;
    created_at = r.created_at;
    updated_at = r.updated_at;
  })

  unfoldable pub decode_row : Row → Result StorageError TenantData
  decode_row r = decoded_row r (j.unmarshal r.config_json) (j.unmarshal r.metadata_json)

  abbrev row_result : Result RowError Row → Result StorageError TenantData
  row_result (err no_rows) = err err_tenant_not_found
  row_result (err (row_error e)) = err (other e)
  row_result (ok r) = decode_row r

  -- `GetTenant`
  unfoldable pub get_tenant : Str → db.State → Result StorageError TenantData
  get_tenant id s = row_result (db.query_row select_tenant (text id ∷ []) s)

  abbrev cons_result :
      Result StorageError TenantData
      → Result StorageError (List TenantData)
      → Result StorageError (List TenantData)
  cons_result (err e) rest = err e
  cons_result (ok t) (err e) = err e
  cons_result (ok t) (ok ts) = ok (t ∷ ts)

  abbrev scanned_row : Result Str Row → Result StorageError TenantData
  scanned_row (err e) = err (other e)
  scanned_row (ok r) = decode_row r

  -- The loop over the rows.
  unfoldable pub scan_rows :
      List (Result Str Row) → Option Str → Result StorageError (List TenantData)
  scan_rows [] none = ok []
  scan_rows [] (some e) = err (other e)
  scan_rows (r ∷ rs) last_error = cons_result (scanned_row r) (scan_rows rs last_error)

  abbrev listed : Result Str Rows → Result StorageError (List TenantData)
  listed (err e) = err (other e)
  listed (ok rows) = scan_rows rows.scanned rows.last_error

  -- `ListTenants`. With an error of the rows the source also returns the tenants that it has read,
  -- which no caller looks at.
  unfoldable pub list_tenants : db.State → Result StorageError (List TenantData)
  list_tenants s = listed (db.query select_tenants [] s)

  abbrev affected : Result Str (Result Str ℕ) × db.State → Option StorageError × db.State
  affected (err e, s) = (some (other e), s)
  affected (ok (err e), s) = (some (other e), s)
  affected (ok (ok n), s) = (if eqb n 0 then some err_tenant_not_found else none, s)

  -- `DeleteTenant`
  unfoldable pub delete_tenant : Str → db.State → Option StorageError × db.State
  delete_tenant id s = affected (db.exec delete_by_id (text id ∷ []) s)

  -- `Close`
  unfoldable pub close : db.State → Option Str × db.State
  close s = db.close s

  -- "Ensure PostgresStore implements Storage interface"
  abbrev pub postgres_store : Storage
  postgres_store = record {
    State = db.State;
    save_tenant = save_tenant;
    get_tenant = get_tenant;
    delete_tenant = delete_tenant;
    list_tenants = list_tenants;
  }
