-- ===== src/Cert/Loading.antt =====
-- internal/cert/manager.go: `NewManager` and `loadFromDisk`.
use hermes_waf.Prelude.{Str, bytes, Option, none, some, List, [], ◌∷◌, ◌||◌, not, if◌then◌else◌}
use hermes_waf.Prelude.Dict.{is_some}
use hermes_waf.Prelude.Results.{Result, ok, err}
use hermes_waf.Text.{ends_with}
use hermes_waf.Cert.{StoredCert, DirEntry, World, CertManager, index}

module _ (w : World) where
  abbrev decoded : Result Str Str → Result Str StoredCert
  decoded (err e) = err e
  decoded (ok text) = w.decode text

  -- `readMeta`
  unfoldable pub read_meta : Str → w.Files → Result Str StoredCert
  read_meta path fs = decoded (w.read_file path fs)

  abbrev pub index_read : Result Str StoredCert → CertManager w → CertManager w
  index_read (err e) m = m
  index_read (ok sc) m =
      if is_some (w.stat sc.cert_path m.files) || is_some (w.stat sc.key_path m.files)
      then m
      else index w sc m

  -- The loop over a tenant's files.
  unfoldable pub load_files : Str → List DirEntry → CertManager w → CertManager w
  load_files dir [] m = m
  load_files dir (f ∷ fs) m = load_files dir fs (
      if ends_with f.name (bytes ".json")
      then index_read (read_meta (w.join_path dir f.name) m.files) m
      else m)

  abbrev pub load_dir : Str → Result Str (List DirEntry) → CertManager w → CertManager w
  load_dir dir (err e) m = m
  load_dir dir (ok fs) m = load_files dir fs m

  -- The loop over the entries of the data directory.
  unfoldable pub load_entries : List DirEntry → CertManager w → CertManager w
  load_entries [] m = m
  load_entries (e ∷ es) m = load_entries es (
      if not e.is_dir
      then m
      else (let dir = w.join_path m.data_dir e.name in load_dir dir (w.read_dir dir m.files) m))

  abbrev pub load_listed : Result Str (List DirEntry) → CertManager w → Option Str × CertManager w
  load_listed (err e) m = (some e, m)
  load_listed (ok es) m = (none, load_entries es m)

  -- `loadFromDisk`
  unfoldable pub load_from_disk : CertManager w → Option Str × CertManager w
  load_from_disk m = load_listed (w.read_dir m.data_dir m.files) m

  abbrev pub opened : Str → Option Str × w.Files → Result Str (CertManager w)
  opened dir (some e, fs) = err e
  opened dir (none, fs) =
      ok
        (load_from_disk
          (record { certs = []; domain_index = []; data_dir = dir; acme = none; files = fs })).1

  -- `NewManager`; an error of `loadFromDisk` is only logged
  unfoldable pub new_cert_manager : Str → w.Files → Result Str (CertManager w)
  new_cert_manager data_dir fs =
      let dir = w.join_path data_dir (bytes "certs") in opened dir (w.mkdir_all dir fs)
