-- ===== src/Lib.antt =====
-- The Hermes WAF (Vinahost WAF): a multi-tenant web application firewall in Go.
--
-- The parts and how they interact. The tenant manager (internal/tenant/manager.go) keeps the tenants,
-- the domains that lead to them and one WAF engine for each. It writes through to a storage
-- (internal/storage) and a cache (internal/cache), and converts tenants to stored records and back
-- (internal/tenant/conversion.go). The router (internal/tenant/router.go) asks it for the tenant of a
-- request's host. The rate limiter (internal/ratelimit), the metrics (internal/metrics) and the
-- configuration (internal/config) stand by themselves. The certificate manager
-- (internal/cert/manager.go) keeps the certificates that tenants upload, and picks one for the server
-- name of a TLS handshake; the ACME manager (internal/cert/acme.go) gets certificates from a server and
-- stores them there. The reverse proxy (internal/proxy/proxy.go) takes a request through the
-- phases of the engine, and the REST API (internal/api/handler.go) calls the two managers.
--
-- Which file models which part:
--   Prelude      Boolean tests, byte strings, dictionaries, 64-bit words, results
--   Text         the functions of Go's package strings that the source uses
--   Waf          the interface of the package internal/waf, which the repository does not hold:
--                `waf.Config`, and `waf.NewEngine` as a parameter
--   Storage      internal/storage/storage.go; Storage/Memory is memory.go, Storage/Postgres postgres.go
--   Cache        internal/cache/cache.go; Cache/Memory is memory.go, Cache/Redis redis.go
--   Tenant       the types of internal/tenant/manager.go; Tenant/Conversion is conversion.go,
--                Tenant/Manager manager.go and Tenant/Router router.go; Tenant/Manager/Sections cuts
--                `GetTenant` and `ListTenants` at their locks, for runs that interleave
--   RateLimit    internal/ratelimit/ratelimit.go
--   Config       internal/config/config.go
--   Metrics      internal/metrics/metrics.go; Metrics/Exposition is its Handler
--   Cert         internal/cert/manager.go; Cert/Upload is AddUploadedCert, Cert/Loading the start;
--                Cert/Acme and Cert/SelfSigned are acme.go
--   Proxy        internal/proxy/proxy.go; Proxy/Setup is NewReverseProxy
--   Api          internal/api/handler.go
--   Tests        the theorems at small inputs
--
-- How the code corresponds. A method of a struct with a mutex is a function on a record of its
-- fields, which takes the arguments and returns the result and the record that is left; what it
-- reads from the clock is an argument. `CreateTenant` is create_tenant, and so on, in the source's
-- words. A Go map is an association list without an order that matters; a map of pointers holds the
-- values that the pointers lead to, since no method changes a tenant that it has stored. A string is
-- its list of bytes. A result is `returned`, `failed` with the error, or `panicked`, with the state
-- written up to that point. `int` and `time.Duration` are 64-bit words with wrap-around in RateLimit and
-- Metrics; a time is a reading of the clock in nanoseconds.
--
-- Loops are structural recursion on lists. The one fuel is the number of sections that `run` in
-- Tenant/Manager/Sections takes; the code has five at most between a call and its answer, and no loop
-- around them. A goroutine is a call of its own: the renewal loop takes the events that it waits for as
-- a list.
--
-- Parameters: the WAF engine's constructor, Go's Unicode tables for strings that are not ASCII,
-- reading the configuration file, YAML, and the files, X.509, PEM and JSON of the certificate
-- manager, the database with its driver, the Redis client, the ACME protocol, and the formats of
-- numbers. A storage and a cache are parameters of the tenant manager; the laws of the storage are a
-- hypothesis where they matter. What the reverse proxy gets from the
-- engine and from the standard library, and the decoded body and form of an API request, are inputs.
--
-- Not modelled: log lines, the zap logger that internal/logging builds (calls of a library only), HTTP
-- encoding, and the dashboard. The locks inside the storage and the caches are taken for granted: each
-- of their methods is one step.
pub mod Prelude
pub mod Text
pub mod RateLimit
pub mod Waf
pub mod Storage
pub mod Cache
pub mod Tenant
pub mod Cert
pub mod Proxy
pub mod Api
pub mod Config
pub mod Metrics
pub mod Tests
