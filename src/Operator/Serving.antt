-- ===== src/Operator/Serving.antt =====
-- The webhook's serving certificate (cmd/plant-operator/webhookcerts.go). Keys `K`, DER texts `D` and PEM texts `P` are arguments, as
-- are the calls of crypto, encoding and os.
pub mod Issued
use Prim.Native.String.{◌++◌ as append}
use k8s_buddy.Common.{
  ℕ, String, Bool, true, false, not, Option, none, some, List, [], ◌∷◌, ℤ, pos, negsuc, ltb_ℤ,
  Result, ok, err, if◌then◌else◌,
}
use k8s_buddy.Controller.Setup.{plus_ℤ}
use k8s_buddy.Operator.Bundle.{Pem}
use k8s_buddy.Operator.Patch.{PatchError, Direct, patch_webhook_ca_bundles}

-- Ten years, in nanoseconds.
abbrev pub webhook_certificate_validity : ℤ
webhook_certificate_validity = pos 315_360_000_000_000_000

-- A day.
abbrev pub webhook_cert_expiry_readiness_margin : ℤ
webhook_cert_expiry_readiness_margin = pos 86_400_000_000_000

-- -5 minutes.
abbrev pub backdate : ℤ
backdate = negsuc 299_999_999_999

-- `x509.Certificate`, the fields that are set.
pub record Template : Type 0 where
  pub serial_number : ℕ
  pub common_name : String
  pub organization : List String
  pub not_before : ℤ
  pub not_after : ℤ
  pub key_usage : List String
  pub ext_key_usage : List String
  pub basic_constraints_valid : Bool
  pub is_ca : Bool
  pub dns_names : List String
  pub ip_addresses : List String

pub data CertError : Type 0 where
  no_dns_names : CertError
  generating_ca_key generating_ca_serial signing_ca parsing_ca : String → CertError
  generating_serving_key generating_serving_serial signing_serving : String → CertError
  marshaling_serving_key : String → CertError
  creating_dir writing_file : (name reason : String) → CertError

pub record Crypto (W K D P : Type 0) : Type 0 where
  pub generate_key : W → Result String K × W
  pub random_serial : W → Result String ℕ × W
  pub now : W → ℤ × W
  pub create_certificate :
      (template parent : Template) (public signer : K) → W → Result String D × W
  pub parse_certificate : D → Result String Template
  pub marshal_key : K → Result String D
  pub encode : (type : String) → D → P
  pub mkdir_all : (dir : String) → W → Option String × W
  pub write_file : (path : String) → P → W → Option String × W
  pub join_path : (dir name : String) → String

-- A step of the generation: an error or a value, and the world after it.
abbrev pub Step : Type 0 → Type 0 → Type 0
Step W A = W → Result CertError A × W

module _ {W : Type 0} where
  abbrev pub after :
      {A B : Type 0} → Result CertError A × W → (A → Step W B) → Result CertError B × W
  after (ok a, w) f = f a w
  after (err e, w) f = (err e, w)

  infixl 5 ◌>>=◌ ◌>>◌
  abbrev pub ◌>>=◌ : {A B : Type 0} → Step W A → (A → Step W B) → Step W B
  (m >>= f) w = after (m w) f

  abbrev pub ◌>>◌ : {B : Type 0} → Step W (Unit {0}) → Step W B → Step W B
  m >> k = m >>= λ _. k

  abbrev pub pure : {A : Type 0} → A → Step W A
  pure a w = (ok a, w)

  -- `if err != nil { return …, fmt.Errorf("…: %w", err) }` after a call.
  abbrev pub wrapping :
      {A : Type 0} → (String → CertError) → Result String A × W → Result CertError A × W
  wrapping f (ok a, w) = (ok a, w)
  wrapping f (err e, w) = (err (f e), w)

  abbrev pub call : {A : Type 0} → (String → CertError) → (W → Result String A × W) → Step W A
  call f m w = wrapping f (m w)

  abbrev pub checking : (String → CertError) → Option String × W → Result CertError (Unit {0}) × W
  checking f (none, w) = (ok tt, w)
  checking f (some e, w) = (err (f e), w)

  abbrev pub check : (String → CertError) → (W → Option String × W) → Step W (Unit {0})
  check f m w = checking f (m w)

  -- A call that cannot fail.
  abbrev pub reading : {A : Type 0} → (W → A × W) → Step W A
  reading m w = let (a, w') = m w in (ok a, w')

abbrev pub ca_template : (serial : ℕ) (now : ℤ) → Template
ca_template serial now = record {
  serial_number = serial;
  common_name = "plant-operator-webhook-ca";
  organization = "k8s-buddy" ∷ [];
  not_before = plus_ℤ now backdate;
  not_after = plus_ℤ now webhook_certificate_validity;
  key_usage = "CertSign" ∷ "DigitalSignature" ∷ [];
  ext_key_usage = [];
  basic_constraints_valid = true;
  is_ca = true;
  dns_names = [];
  ip_addresses = [];
}

abbrev pub leaf_template : (serial : ℕ) (now : ℤ) (first : String) (others : List String) → Template
leaf_template serial now first others = record {
  serial_number = serial;
  common_name = first;
  organization = "k8s-buddy" ∷ [];
  not_before = plus_ℤ now backdate;
  not_after = plus_ℤ now webhook_certificate_validity;
  key_usage = "DigitalSignature" ∷ "KeyEncipherment" ∷ [];
  ext_key_usage = "ServerAuth" ∷ [];
  basic_constraints_valid = false;
  is_ca = false;
  dns_names = first ∷ others;
  ip_addresses = "127.0.0.1" ∷ [];
}

-- A CA: its key, its certificate as parsed, the DER text, and the time read.
pub record Ca (K D : Type 0) : Type 0 where
  pub key : K
  pub cert : Template
  pub der : D
  pub now : ℤ

module _ {W K D P : Type 0} (crypto : Crypto W K D P) where
  unfoldable pub generate_ca : Step W (Ca K D)
  generate_ca = do
    ca_key ← call generating_ca_key crypto.generate_key
    ca_serial ← call generating_ca_serial crypto.random_serial
    now ← reading crypto.now
    ca_der ← call signing_ca (
        crypto.create_certificate (ca_template ca_serial now) (ca_template ca_serial now) ca_key
          ca_key)
    ca_cert ← call parsing_ca (λ w. (crypto.parse_certificate ca_der, w))
    pure (record { key = ca_key; cert = ca_cert; der = ca_der; now = now })

  unfoldable pub write_pair : (cert_dir : String) → (cert key : P) → Step W (Unit {0})
  write_pair cert_dir cert key = do
    check (creating_dir cert_dir) (crypto.mkdir_all cert_dir)
    check (writing_file "tls.crt") (crypto.write_file (crypto.join_path cert_dir "tls.crt") cert)
    check (writing_file "tls.key") (crypto.write_file (crypto.join_path cert_dir "tls.key") key)

  -- The serving certificate, signed by the CA, and its key, in PEM.
  unfoldable pub generate_leaf : (first : String) (others : List String) → Ca K D → Step W (P × P)
  generate_leaf first others ca = do
    leaf_key ← call generating_serving_key crypto.generate_key
    leaf_serial ← call generating_serving_serial crypto.random_serial
    leaf_der ← call signing_serving (
        crypto.create_certificate (leaf_template leaf_serial ca.now first others) ca.cert leaf_key
          ca.key)
    key_der ← call marshaling_serving_key (λ w. (crypto.marshal_key leaf_key, w))
    pure (crypto.encode "CERTIFICATE" leaf_der, crypto.encode "EC PRIVATE KEY" key_der)

  unfoldable pub generate_webhook_serving_certificate :
      (cert_dir : String) (dns_names : List String) → Step W (P × ℤ)
  unfolding generate_ca generate_leaf write_pair
  generate_webhook_serving_certificate cert_dir [] w = (err no_dns_names, w)
  generate_webhook_serving_certificate cert_dir (first ∷ others) w =
      (do
        ca ← generate_ca
        leaf ← generate_leaf first others ca
        write_pair cert_dir leaf.0 leaf.1
        pure (crypto.encode "CERTIFICATE" ca.der, plus_ℤ ca.now webhook_certificate_validity))
        w

-- The error, which names the end of validity, or `none` for healthy.
unfoldable pub webhook_cert_expiry_check : (leaf_not_after now : ℤ) → Option ℤ
webhook_cert_expiry_check leaf_not_after now =
    if not (ltb_ℤ (plus_ℤ now webhook_cert_expiry_readiness_margin) leaf_not_after)
    then some leaf_not_after
    else none

unfoldable pub webhook_service_dns_names : (service_name namespace : String) → List String
webhook_service_dns_names service_name namespace =
    let namespaced = append service_name (append "." namespace) in
    service_name
    ∷ namespaced
    ∷ append namespaced ".svc"
    ∷ append namespaced ".svc.cluster.local"
    ∷ []
