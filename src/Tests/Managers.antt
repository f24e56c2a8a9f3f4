-- ===== src/Tests/Managers.antt =====
-- The manager's theorems at the fixtures.
use mathlib.Core.Path.{subst}
use hermes_waf.Prelude.{bytes, ◌≡◌, refl, none, some, [], ◌∷◌}
use hermes_waf.Prelude.Dict.{lookup}
use hermes_waf.Prelude.Results.{err, Outcome, returned, failed, panicked}
use hermes_waf.Storage.Memory.{new_memory_store, memory_store-StorageLaws}
use hermes_waf.Tenant.{Tenant}
use hermes_waf.Tenant.Manager.{
  TenantManager, no_engine, engine_failed, create_waf_engine, detach, find_existing,
  new_tenant_manager, get_waf_engine,
}
use hermes_waf.Tenant.Manager.Routes.{Agrees-empty}
use hermes_waf.Tenant.Manager.Frame.{IsRouted}
use hermes_waf.Tenant.Manager.Create.{create_tenant}
use hermes_waf.Tenant.Manager.Update.{update_tenant}
use hermes_waf.Tenant.Manager.Delete.{delete_tenant}
use hermes_waf.Tenant.Manager.Load.{get_tenant, list_tenants}
use hermes_waf.Tenant.Manager.Routing.{create_tenant-IsRouted}
use hermes_waf.Tenant.Manager.Outcomes.{IsCreated, create_tenant-IsCreated}
use hermes_waf.Tenant.Manager.Removal.{IsRemoved, delete_tenant-IsRemoved}
use hermes_waf.Tenant.Manager.Replacement.{
  IsStranded, IsUpdated, update_tenant-no_config, update_tenant-engine_failed,
  update_tenant-IsUpdated,
}
use hermes_waf.Tenant.Manager.Engines.{IsServed, list_tenants-no_engine}
use hermes_waf.Tenant.Manager.Runs.{here, next, create, remove, Reach-IsRouted}
use hermes_waf.Tenant.Manager.Writes.{
  none_yet, then_create, then_update, then_delete, Writes-IsServed,
}
use hermes_waf.Tests.Fixtures.{
  env, start, no_items, acme, acme_stored, running, manager, create_acme,
}

pub running-IsRouted : IsRouted running
running-IsRouted =
    subst (λ (r : Outcome _ _ × TenantManager env). IsRouted r.1) create_acme
      (create_tenant-IsRouted acme 5 6 start Agrees-empty)

found_running : find_existing env (bytes "t1") running ≡ some acme_stored
unfolding manager
found_running = refl

-- Other records for the same ID: one that moves to another domain, one without configuration, and
-- one with a rule file that is missing.
abbrev moved : Tenant
moved = record acme_stored { domains = bytes "acme.org" ∷ [] }

abbrev bare : Tenant
bare = record moved { config = none }

abbrev broken : Tenant
broken = record moved { rules = bytes "crs.conf" ∷ [] }

create_tenant-IsCreated_example : IsCreated acme_stored start (create_tenant env acme 5 6 start)
create_tenant-IsCreated_example = create_tenant-IsCreated acme 5 6 start

delete_tenant-IsRemoved_example :
    IsRemoved (bytes "t1") running (delete_tenant env (bytes "t1") running).1
delete_tenant-IsRemoved_example =
    delete_tenant-IsRemoved acme_stored (bytes "t1") running running-IsRouted found_running

update_tenant-IsUpdated_example :
    IsUpdated
      (record moved { updated_at = 7 })
      acme_stored
      running
      (update_tenant env moved 7 running)
update_tenant-IsUpdated_example = update_tenant-IsUpdated moved acme_stored 7 running found_running

running_tenant : lookup (bytes "t1") running.tenants ≡ some acme_stored
unfolding manager
running_tenant = refl

running_engine : lookup (bytes "t1") running.wafs ≡ some 0
unfolding manager
running_engine = refl

update_tenant-no_config_example :
    ((update_tenant env bare 7 running).0 ≡ panicked)
    × IsStranded bare acme_stored 0 (update_tenant env bare 7 running).1
update_tenant-no_config_example =
    update_tenant-no_config bare acme_stored 0 running running-IsRouted running_tenant
      running_engine 7 refl

missing_file :
    (create_waf_engine env broken (detach env (bytes "t1") acme_stored running)).0
    ≡ failed (engine_failed (bytes "crs.conf"))
unfolding manager
missing_file = refl

update_tenant-engine_failed_example :
    ((update_tenant env broken 7 running).0 ≡ failed (engine_failed (bytes "crs.conf")))
    × IsStranded broken acme_stored 0 (update_tenant env broken 7 running).1
update_tenant-engine_failed_example =
    update_tenant-engine_failed broken acme_stored 0 running running-IsRouted running_tenant
      running_engine 7 (engine_failed (bytes "crs.conf")) missing_file

-- The manager after a restart: the storage has the tenant, and memory is empty.
abbrev restarted : TenantManager env
restarted = record running { tenants = []; domains = []; wafs = [] }

listed : lookup (bytes "t1") (list_tenants env restarted).1.tenants ≡ some acme_stored
unfolding manager
listed = refl

no_engine_yet : lookup (bytes "t1") restarted.wafs ≡ none
unfolding manager
no_engine_yet = refl

list_tenants-no_engine_example :
    ((get_tenant env (bytes "t1") (list_tenants env restarted).1).0 ≡ returned acme_stored)
    × (get_waf_engine env
          (bytes "t1")
          (get_tenant env (bytes "t1") (list_tenants env restarted).1).1
        ≡ err (no_engine (bytes "t1")))
list_tenants-no_engine_example =
    list_tenants-no_engine (bytes "t1") acme_stored restarted no_engine_yet listed

abbrev fresh : TenantManager env
fresh = new_tenant_manager env (some no_items) (some new_memory_store)

abbrev first_day : TenantManager env
first_day = (delete_tenant env (bytes "t2") (create_tenant env acme 5 6 fresh).1).1

Reach-IsRouted_example : IsRouted first_day
Reach-IsRouted_example =
    Reach-IsRouted env memory_store-StorageLaws.0 (some no_items) (some new_memory_store)
      memory_store-StorageLaws.1 (next (next here (create acme 5 6)) (remove (bytes "t2")))

-- A tenant is created, updated and deleted.
Writes-IsServed_example :
    IsServed
      (delete_tenant env
        (bytes "t1")
        (update_tenant env moved 7 (create_tenant env acme 5 6 fresh).1).1).1
Writes-IsServed_example =
    Writes-IsServed (some no_items) (some new_memory_store)
      (then_delete (bytes "t1") (then_update moved 7 (then_create acme 5 6 none_yet)))
