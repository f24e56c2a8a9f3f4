-- ===== src/Tenant/Manager/Routes.antt =====
-- The two maps of the manager: tenants by ID, and domains to tenants.
use hermes_waf.Prelude.{
  Str, ◌≡◌, ◌≢◌, refl, ap, true, none, some, List, [], ◌∷◌, arith, eq_iff, if◌then◌else◌,
}
use hermes_waf.Prelude.Dict.{Dict, lookup, insert, delete, contains, lookup-insert, lookup-delete}
use hermes_waf.Tenant.{Tenant}
use hermes_waf.Tenant.Manager.{map_domains, unmap_domains}

pub lookup-map_domains :
    (j : Str) (t : Tenant) (ds : List Str) (m : Dict Tenant)
    → lookup j (map_domains t ds m) ≡ (if contains j ds then some t else lookup j m)
unfolding map_domains contains
lookup-map_domains j t [] m = refl
lookup-map_domains j t (d ∷ ds) m =
    ground (arith, lookup-map_domains j t ds (insert d t m), lookup-insert j d t m)

pub lookup-unmap_domains :
    (j : Str) (ds : List Str) (m : Dict Tenant)
    → lookup j (unmap_domains ds m) ≡ (if contains j ds then none else lookup j m)
unfolding unmap_domains contains
lookup-unmap_domains j [] m = refl
lookup-unmap_domains j (d ∷ ds) m =
    ground (arith, lookup-unmap_domains j ds (delete d m), lookup-delete j d m)

-- Every domain that is mapped is mapped to the present record of a tenant that lists it.
pub record Agrees (tenants domains : Dict Tenant) : Type 0 where
  pub current : (d : Str) (t : Tenant) → lookup d domains ≡ some t → lookup t.id tenants ≡ some t
  pub listed : (d : Str) (t : Tenant) → lookup d domains ≡ some t → contains d t.domains ≡ true

-- No domain is mapped to a tenant of this ID.
pub record IsUnrouted (id : Str) (domains : Dict Tenant) : Type 0 where
  pub unrouted : (d : Str) (t : Tenant) → lookup d domains ≡ some t → t.id ≢ id

pub Agrees-empty : Agrees [] []
unfolding lookup
Agrees-empty = record { current = λ d t h. cc; listed = λ d t h. cc }

module _ {ts ds : Dict Tenant} (a : Agrees ts ds) where
  pub Agrees-unmap_domains : (l : List Str) → Agrees ts (unmap_domains l ds)
  Agrees-unmap_domains l = record {
    current = λ d t h. a.current d t (ground (arith, lookup-unmap_domains d l ds));
    listed = λ d t h. a.listed d t (ground (arith, lookup-unmap_domains d l ds));
  }

  pub IsUnrouted-of_absent : (id : Str) → lookup id ts ≡ none → IsUnrouted id ds
  IsUnrouted-of_absent id h = record {
    unrouted = λ d t p e. cc (a.current d t p, ap (λ i. lookup i ts) e);
  }

  -- Unmapping the domains of the present record takes every route of its ID away.
  pub IsUnrouted-unmap_domains :
      (id : Str) (old : Tenant)
      → lookup id ts ≡ some old
      → IsUnrouted id (unmap_domains old.domains ds)
  IsUnrouted-unmap_domains id old h = record {
    unrouted = λ d t p e. ground (
      arith,
      lookup-unmap_domains d old.domains ds,
      a.current d t,
      a.listed d t,
      ap (λ i. lookup i ts) e,
    );
  }

  module _ (t : Tenant) (free : IsUnrouted t.id ds) where
    pub Agrees-insert : Agrees (insert t.id t ts) ds
    Agrees-insert = record {
      current = λ d s h. ground (
        arith,
        lookup-insert s.id t.id t ts,
        eq_iff t.id s.id,
        free.unrouted d s h,
        a.current d s h,
      );
      listed = a.listed;
    }

  -- Storing the present record again.
  pub Agrees-refresh : (t : Tenant) → lookup t.id ts ≡ some t → Agrees (insert t.id t ts) ds
  Agrees-refresh t here = record {
    current = λ d s h.
        ground (arith, lookup-insert s.id t.id t ts, eq_iff t.id s.id, here, a.current d s h);
    listed = a.listed;
  }

  pub Agrees-delete : (id : Str) → IsUnrouted id ds → Agrees (delete id ts) ds
  Agrees-delete id free = record {
    current = λ d s h.
        ground
          (arith, lookup-delete s.id id ts, eq_iff id s.id, free.unrouted d s h, a.current d s h);
    listed = a.listed;
  }

-- Mapping the domains of a present record.
pub Agrees-map_domains :
    {ts ds : Dict Tenant} (t : Tenant)
    → Agrees ts ds
    → lookup t.id ts ≡ some t
    → Agrees ts (map_domains t t.domains ds)
Agrees-map_domains {ds} t a h = record {
  current = λ d s p. ground (arith, lookup-map_domains d t t.domains ds, a.current d s);
  listed = λ d s p. ground (arith, lookup-map_domains d t t.domains ds, a.listed d s);
}

pub IsUnrouted-unmap :
    (id : Str) (l : List Str) (ds : Dict Tenant)
    → IsUnrouted id ds
    → IsUnrouted id (unmap_domains l ds)
IsUnrouted-unmap id l ds free = record {
  unrouted = λ d t h. free.unrouted d t (ground (arith, lookup-unmap_domains d l ds));
}
