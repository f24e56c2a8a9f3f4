-- ===== src/Tests/Certs.antt =====
-- The certificate manager's theorems at a small world: every file can be written, and a certificate
-- is read as the path it was written to.
use mathlib.Core.Path.{subst}
use hermes_waf.Prelude.{
  ℕ, suc, Str, bytes, ◌≡◌, ◌≢◌, ◌↔◌, refl, Bool, if◌then◌else◌, true, false, none, some, [], ◌∷◌,
  ◌==◌, arith,
}
use hermes_waf.Prelude.Dict.{lookup, insert}
use hermes_waf.Prelude.Results.{ok, err, returned, panicked}
use hermes_waf.Text.{to_lower, trim_space, ends_with, has_infix}
use hermes_waf.Cert.{
  DirEntry, uploaded, StoredCert, X509, World, CertManager, index, index_domains, get_certificate,
  delete_cert, server_name_of,
}
use hermes_waf.Cert.Upload.{
  add_uploaded_cert, add_key, add_cert, atomic_write, add_meta, indexed, write_meta, stored_cert,
  generate_cert_id, domains_of, source_of,
}
use hermes_waf.Cert.Indexed.{
  IsSound, IsUploaded, IsDeleted, Extends, lists, add_uploaded_cert-IsUploaded,
  add_uploaded_cert-IsSound, delete_cert-IsDeleted,
}
use hermes_waf.Cert.Handshakes.{get_certificate-add_uploaded_cert}
use hermes_waf.Cert.Loading.{new_cert_manager, load_from_disk, load_entries, load_files, read_meta}
use hermes_waf.Cert.Starting.{new_cert_manager-ne-panicked}
use hermes_waf.Cert.Serving.{IsStored, get_certificate-IsStored, get_certificate-panicked}

abbrev leaf : X509
leaf = record {
  issuer = bytes "CN=Root";
  issuer_common_name = bytes "Root";
  subject = bytes "CN=acme.com";
  subject_common_name = bytes "acme.com";
  dns_names = bytes "Acme.com" ∷ [];
  not_before = 0;
  not_after = 90;
  serial_number = bytes "77";
}

abbrev pub world : World
world = record {
  Files = ℕ;
  Certificate = Str;
  mkdir_all = λ p n. (none, n);
  write_file = λ p t n. (none, suc n);
  rename = λ p q n. (none, n);
  remove = λ p n. n;
  stat = λ p n. none;
  read_dir = λ p n. ok [];
  read_file = λ p n. err p;
  join_path = λ p q. q;
  load_key_pair = λ p q n. ok p;
  key_pair = λ p q. ok p;
  parse_certificate = λ t. ok leaf;
  encode = λ sc. ok sc.id;
  decode = λ t. err t;
  unicode = record { lower = λ s. s; trim = λ s. s };
}

abbrev pub empty : CertManager world
empty = record { certs = []; domain_index = []; data_dir = bytes "certs"; acme = none; files = 0 }

empty-IsSound : IsSound empty
unfolding lookup
empty-IsSound = record { covered = λ d id e. cc }

add_uploaded_cert-IsUploaded_example :
    IsUploaded empty (add_uploaded_cert world (bytes "t1") [] (bytes "c") (bytes "k") 5 empty)
add_uploaded_cert-IsUploaded_example =
    add_uploaded_cert-IsUploaded (bytes "t1") [] (bytes "c") (bytes "k") 5 empty

-- A manager with one certificate.
abbrev first : StoredCert
first = record {
  id = bytes "t1-77";
  tenant_id = bytes "t1";
  domains = bytes "Acme.com" ∷ [];
  source = uploaded;
  issuer = bytes "Root";
  not_before = 0;
  not_after = 90;
  serial = bytes "77";
  cert_path = bytes "t1-77.crt";
  key_path = bytes "t1-77.key";
  created_at = 5;
  auto_renew = false;
}

abbrev stocked : CertManager world
stocked = index world first empty

stocked-IsSound : IsSound stocked
unfolding index index_domains lookup insert lists to_lower ◌==◌
stocked-IsSound = record { covered = λ d id e. (first, ground arith, ground arith) }

-- The same certificate once more: it takes its own ID over.
uploaded_again :
    (add_uploaded_cert world (bytes "t1") [] (bytes "c") (bytes "k") 5 stocked).0 ≡ ok first
unfolding add_uploaded_cert add_key add_cert atomic_write add_meta indexed write_meta stored_cert
    generate_cert_id domains_of source_of ◌==◌ has_infix
uploaded_again = refl

first-Extends : Extends stocked first
unfolding index lookup insert ◌==◌
first-Extends old d there listed =
    let same : old ≡ first = cc in
    subst (λ (x : StoredCert). lists world.unicode d x.domains ≡ true) same listed

add_uploaded_cert-IsSound_example :
    IsSound (add_uploaded_cert world (bytes "t1") [] (bytes "c") (bytes "k") 5 stocked).1
add_uploaded_cert-IsSound_example =
    add_uploaded_cert-IsSound (bytes "t1") [] (bytes "c") (bytes "k") 5 stocked stocked-IsSound
      (λ sc e.
        let same : first ≡ sc = cc (e, uploaded_again) in
        subst (Extends stocked) same first-Extends)

delete_cert-IsDeleted_example :
    IsDeleted
      (bytes "t1")
      (bytes "t1-77")
      stocked
      (delete_cert world (bytes "t1") (bytes "t1-77") stocked)
delete_cert-IsDeleted_example =
    delete_cert-IsDeleted (bytes "t1") (bytes "t1-77") stocked stocked-IsSound

abbrev entry : Str → Bool → DirEntry
entry name is_dir = record { name = name; is_dir = is_dir }

-- A disk that has the metadata of the certificate in the directory of its tenant.
abbrev disk : World
disk = record world {
  read_dir = λ p n. ok (
      if p == bytes "certs"
      then entry (bytes "t1") true ∷ []
      else entry (bytes "t1-77.crt.json") false ∷ []);
  read_file = λ p n. ok p;
  decode = λ t. ok first;
}

abbrev reopened : CertManager disk
reopened = record {
  certs = (bytes "t1-77", first) ∷ [];
  domain_index = (bytes "acme.com", bytes "t1-77") ∷ [];
  data_dir = bytes "certs";
  acme = none;
  files = 0;
}

opened_disk : new_cert_manager disk (bytes "data") 0 ≡ ok reopened
unfolding new_cert_manager load_from_disk load_entries load_files read_meta ends_with index
    index_domains insert to_lower ◌==◌
opened_disk = refl

new_cert_manager-ne-panicked_example : get_certificate disk (bytes "ACME.com ") reopened ≢ panicked
new_cert_manager-ne-panicked_example =
    new_cert_manager-ne-panicked disk (bytes "data") 0 reopened opened_disk (bytes "ACME.com ")

named : server_name_of world (bytes "ACME.com ") ≢ bytes ""
unfolding to_lower trim_space
named e = cc

no_acme : stocked.acme ≡ none
unfolding index
no_acme = refl

get_certificate-IsStored_example :
    (get_certificate world (bytes "ACME.com ") stocked ≡ returned (bytes "t1-77.crt"))
    ↔ IsStored world (server_name_of world (bytes "ACME.com ")) (bytes "t1-77.crt") stocked
get_certificate-IsStored_example =
    get_certificate-IsStored world (bytes "ACME.com ") stocked (bytes "t1-77.crt") stocked-IsSound
      no_acme named

listed_name : lists world.unicode (server_name_of world (bytes "ACME.com ")) first.domains ≡ true
unfolding lists to_lower trim_space ◌==◌
listed_name = refl

get_certificate-add_uploaded_cert_example :
    (get_certificate world
        (bytes "ACME.com ")
        (add_uploaded_cert world (bytes "t1") [] (bytes "c") (bytes "k") 5 stocked).1
      ≡ returned (bytes "t1-77.crt"))
    ↔ (world.load_key_pair first.cert_path first.key_path
          (add_uploaded_cert world (bytes "t1") [] (bytes "c") (bytes "k") 5 stocked).1.files
        ≡ ok (bytes "t1-77.crt"))
get_certificate-add_uploaded_cert_example =
    get_certificate-add_uploaded_cert (bytes "t1") [] (bytes "c") (bytes "k") 5 stocked first
      (bytes "ACME.com ") (bytes "t1-77.crt") uploaded_again named listed_name

-- The same certificate for another domain.
abbrev second : StoredCert
second = record first { domains = bytes "acme.org" ∷ [] }

still_there :
    lookup (server_name_of world (bytes "ACME.com ")) stocked.domain_index ≡ some second.id
unfolding index index_domains lookup insert to_lower trim_space ◌==◌
still_there = refl

dropped : lists world.unicode (server_name_of world (bytes "ACME.com ")) second.domains ≡ false
unfolding lists to_lower trim_space ◌==◌
dropped = refl

get_certificate-panicked_example :
    get_certificate world
      (bytes "ACME.com ")
      (delete_cert world (bytes "t1") (bytes "t1-77") (index world second stocked)).1
    ≡ panicked
get_certificate-panicked_example =
    get_certificate-panicked world (bytes "ACME.com ") second stocked named still_there dropped
