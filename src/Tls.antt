-- ===== src/Tls.antt =====
-- `BuildTLSConfig` of internal/security/tls.go; the files and what crypto/x509 and crypto/tls make of
-- them are arguments.
use shiro_distributed_system.Common.{
  Bool, not, ◌&&◌, ◌||◌, Option, none, some, Text, codes, is_empty, Result, ok, err, if◌then◌else◌,
}
use shiro_distributed_system.Contracts.{Error, failed}

pub record TlsOptions : Type 0 where
  pub ca_file : Text
  pub cert_file : Text
  pub key_file : Text
  pub server_name : Text
  pub insecure_skip_verify : Bool

-- The pool of authorities and the client's certificate by what was read for them; the least version is
-- always TLS 1.2.
pub record TlsConfig : Type 0 where
  pub server_name : Text
  pub insecure_skip_verify : Bool
  pub root_cas : Option Text
  pub certificate : Option Text

-- os.ReadFile, AppendCertsFromPEM and tls.LoadX509KeyPair.
pub record Files : Type 0 where
  pub read_file : Text → Result Error Text
  pub is_pem : Text → Bool
  pub load_key_pair : Text → Text → Result Error Text

-- The authorities, if a file is named.
abbrev pub root_cas_of : Files → TlsOptions → Result Error (Option Text)
root_cas_of files opts = elim (files.read_file opts.ca_file) [
  | err e ↦ if is_empty opts.ca_file then ok none else err e
  | ok pem ↦
      if is_empty opts.ca_file
      then ok none
      else if files.is_pem pem
      then ok (some pem)
      else err (failed (codes "append ca certs failed"))
]

-- The client's certificate: both files are needed, or none.
abbrev pub certificate_of : Files → TlsOptions → Result Error (Option Text)
certificate_of files opts = elim (files.load_key_pair opts.cert_file opts.key_file) [
  | err e ↦
      if is_empty opts.cert_file && is_empty opts.key_file
      then ok none
      else if is_empty opts.cert_file || is_empty opts.key_file
      then err (failed (codes "both cert and key files are required for mTLS client certs"))
      else err e
  | ok pair ↦
      if is_empty opts.cert_file && is_empty opts.key_file
      then ok none
      else if is_empty opts.cert_file || is_empty opts.key_file
      then err (failed (codes "both cert and key files are required for mTLS client certs"))
      else ok (some pair)
]

abbrev built :
    TlsOptions
    → Result Error (Option Text)
    → Result Error (Option Text)
    → Result Error (Option TlsConfig)
built opts (err e) cert = err e
built opts (ok cas) (err e) = err e
built opts (ok cas) (ok cert) = ok (
    some (record {
      server_name = opts.server_name;
      insecure_skip_verify = opts.insecure_skip_verify;
      root_cas = cas;
      certificate = cert;
    }))

-- No configuration if no option is set.
unfoldable pub build_tls_config : Files → TlsOptions → Result Error (Option TlsConfig)
build_tls_config files opts =
    if is_empty opts.ca_file
      && is_empty opts.cert_file
      && is_empty opts.key_file
      && is_empty opts.server_name
      && not opts.insecure_skip_verify
    then ok none
    else built opts (root_cas_of files opts) (certificate_of files opts)
