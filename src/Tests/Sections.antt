-- ===== src/Tests/Sections.antt =====
-- Interleaved calls of the manager at the fixtures.
use hermes_waf.Prelude.{Str, bytes, ◌≡◌, refl, true, none, some, [], ◌∷◌}
use hermes_waf.Prelude.Dict.{lookup, contains}
use hermes_waf.Prelude.Results.{ok, returned}
use hermes_waf.Storage.Memory.{memory_store-StorageLaws}
use hermes_waf.Tenant.Manager.{
  TenantManager, new_tenant_manager, get_tenant_by_domain, stored_tenant,
}
use hermes_waf.Tenant.Manager.Create.{create_tenant}
use hermes_waf.Tenant.Manager.Delete.{delete_tenant}
use hermes_waf.Tenant.Manager.Sections.{
  placed, reading, start_list, Moves, here, next, create, begin_list,
}
use hermes_waf.Tenant.Manager.Interleaved.{Moves-IsFound}
use hermes_waf.Tenant.Manager.Overtaking.{overtaken, alone, overtaken_lem}
use hermes_waf.Tenant.Router.Lookup.{IsFound}
use hermes_waf.Tests.Fixtures.{env, no_items, acme, acme_stored, running, manager}

-- A manager that was started again over the storage.
abbrev restarted : TenantManager env
restarted = record running { tenants = []; domains = []; wafs = [] }

abbrev fresh : TenantManager env
fresh = new_tenant_manager env (some no_items) (some (record { tenants = [] }))

-- A call of `ListTenants` waits while a tenant is created.
between : TenantManager env
between = (create_tenant env acme 5 6 fresh).1

listed_meanwhile : Moves env (alone env fresh) (record { manager = between; calls = reading ∷ [] })
unfolding between start_list new_tenant_manager manager
listed_meanwhile = next (next here begin_list) (create acme 5 6)

found_between : get_tenant_by_domain env (bytes "acme.com") between ≡ ok acme_stored
unfolding between new_tenant_manager manager
found_between = refl

Moves-IsFound_example : IsFound between (bytes "acme.com") acme_stored
Moves-IsFound_example =
    Moves-IsFound (some no_items) (some (record { tenants = [] })) listed_meanwhile
      (bytes "acme.com") acme_stored found_between

absent_restarted : lookup (bytes "t1") restarted.tenants ≡ none
unfolding lookup
absent_restarted = refl

stored_restarted : stored_tenant env (bytes "t1") restarted ≡ some acme_stored
unfolding manager
stored_restarted = refl

deleted_restarted : (delete_tenant env (bytes "t1") restarted).0 ≡ returned tt
unfolding manager
deleted_restarted = refl

overtaken_lem_example :
    Moves env (alone env restarted) (record {
      manager = overtaken env (bytes "t1") acme_stored restarted;
      calls = placed (bytes "t1") acme_stored ∷ [];
    })
    × (stored_tenant env (bytes "t1") (overtaken env (bytes "t1") acme_stored restarted) ≡ none)
    × (lookup (bytes "t1") (overtaken env (bytes "t1") acme_stored restarted).tenants
        ≡ some acme_stored)
    × ((d : Str)
        → contains d acme_stored.domains ≡ true
        → get_tenant_by_domain env d (overtaken env (bytes "t1") acme_stored restarted)
          ≡ ok acme_stored)
overtaken_lem_example =
    overtaken_lem env memory_store-StorageLaws.0 (bytes "t1") acme_stored restarted absent_restarted
      stored_restarted deleted_restarted
