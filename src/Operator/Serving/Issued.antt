-- ===== src/Operator/Serving/Issued.antt =====
-- What a generated certificate is (cmd/plant-operator/webhookcerts.go).
use k8s_buddy.Common.{
  ◌≡◌, ap, ap₂, subst, ℕ, String, none, List, ◌∷◌, ℤ, ok, arith, Result-cases, Option-cases, inl,
  inr,
}
use k8s_buddy.Controller.Setup.{plus_ℤ}
use k8s_buddy.Operator.Serving.{
  webhook_certificate_validity, Crypto, ca_template, leaf_template, Ca, generate_ca, generate_leaf,
  write_pair, generate_webhook_serving_certificate,
}

module _ {W K D P : Type 0} (crypto : Crypto W K D P) where
  -- A CA that signed itself.
  pub record SelfSigned (ca : Ca K D) : Type 0 where
    pub serial : ℕ
    pub asked : W
    pub signed :
        (crypto.create_certificate
          (ca_template serial ca.now)
          (ca_template serial ca.now)
          ca.key
          ca.key
          asked).0
        ≡ ok ca.der
    pub parsed : crypto.parse_certificate ca.der ≡ ok ca.cert

  generate_ca-SelfSigned :
      (w w' : W) (ca : Ca K D) → generate_ca crypto w ≡ (ok ca, w') → SelfSigned ca
  unfolding generate_ca
  generate_ca-SelfSigned w w' ca h =
      let (r1, w1) = crypto.generate_key w in
      let (r2, w2) = crypto.random_serial w1 in
      let (now, w3) = crypto.now w2 in
      elim (Result-cases r1) [
        | inr (x, e) ↦ absurd (ground (arith, e))
        | inl (key, e1) ↦ elim (Result-cases r2) [
          | inr (x, e) ↦ absurd (ground (arith, e1, e))
          | inl (serial, e2) ↦
              let template = ca_template serial now in
              let (r4, w4) = crypto.create_certificate template template key key w3 in
              elim (Result-cases r4) [
                | inr (x, e) ↦ absurd (ground (arith, e1, e2, e))
                | inl (der, e4) ↦ elim (Result-cases (crypto.parse_certificate der)) [
                  | inr (x, e) ↦ absurd (ground (arith, e1, e2, e4, e))
                  | inl (cert, e5) ↦
                      let same : record { key = key; cert = cert; der = der; now = now } ≡ ca =
                        ground (arith, e1, e2, e4, e5) in
                      subst SelfSigned same
                        (record { serial = serial; asked = w3; signed = e4; parsed = e5 })
                ]
              ]
        ]
      ]

  -- A serving certificate for these names, signed by the CA, and its key.
  pub record Signed (first : String) (others : List String) (ca : Ca K D) (pair : P × P)
      : Type 0 where
    pub key : K
    pub serial : ℕ
    pub der : D
    pub key_der : D
    pub asked : W
    pub signed :
        (crypto.create_certificate
          (leaf_template serial ca.now first others)
          ca.cert
          key
          ca.key
          asked).0
        ≡ ok der
    pub marshaled : crypto.marshal_key key ≡ ok key_der
    pub encoded : (crypto.encode "CERTIFICATE" der, crypto.encode "EC PRIVATE KEY" key_der) ≡ pair

  generate_leaf-Signed :
      (first : String) (others : List String) (ca : Ca K D) (w w' : W) (pair : P × P)
      → generate_leaf crypto first others ca w ≡ (ok pair, w')
      → Signed first others ca pair
  unfolding generate_leaf
  generate_leaf-Signed first others ca w w' pair h =
      let (r1, w1) = crypto.generate_key w in
      let (r2, w2) = crypto.random_serial w1 in
      elim (Result-cases r1) [
        | inr (x, e) ↦ absurd (ground (arith, e))
        | inl (key, e1) ↦ elim (Result-cases r2) [
          | inr (x, e) ↦ absurd (ground (arith, e1, e))
          | inl (serial, e2) ↦
              let template = leaf_template serial ca.now first others in
              let (r3, w3) = crypto.create_certificate template ca.cert key ca.key w2 in
              elim (Result-cases r3) [
                | inr (x, e) ↦ absurd (ground (arith, e1, e2, e))
                | inl (der, e3) ↦ elim (Result-cases (crypto.marshal_key key)) [
                  | inr (x, e) ↦ absurd (ground (arith, e1, e2, e3, e))
                  | inl (key_der, e4) ↦ record {
                    key = key;
                    serial = serial;
                    der = der;
                    key_der = key_der;
                    asked = w2;
                    signed = e3;
                    marshaled = e4;
                    encoded = ground (arith, e1, e2, e3, e4);
                  }
                ]
              ]
        ]
      ]

  -- The certificate's file is written, and then, last, the key's.
  pub record Written (cert_dir : String) (cert key : P) (w' : W) : Type 0 where
    pub made : W
    pub certified : W
    pub cert_written :
        crypto.write_file (crypto.join_path cert_dir "tls.crt") cert made ≡ (none, certified)
    pub key_written :
        crypto.write_file (crypto.join_path cert_dir "tls.key") key certified ≡ (none, w')

  write_pair-Written :
      (cert_dir : String) (cert key : P) (w w' : W) (u : Unit {0})
      → write_pair crypto cert_dir cert key w ≡ (ok u, w')
      → Written cert_dir cert key w'
  unfolding write_pair
  write_pair-Written cert_dir cert key w w' u h =
      let (r1, w1) = crypto.mkdir_all cert_dir w in
      let (r2, w2) = crypto.write_file (crypto.join_path cert_dir "tls.crt") cert w1 in
      let (r3, w3) = crypto.write_file (crypto.join_path cert_dir "tls.key") key w2 in
      elim (Option-cases r1) [
        | inr (x, e) ↦ absurd (ground (arith, e))
        | inl e1 ↦ elim (Option-cases r2) [
          | inr (x, e) ↦ absurd (ground (arith, e1, e))
          | inl e2 ↦ elim (Option-cases r3) [
            | inr (x, e) ↦ absurd (ground (arith, e1, e2, e))
            | inl e3 ↦
                let there : w3 ≡ w' = ground (arith, e1, e2, e3) in
                record {
                  made = w1;
                  certified = w2;
                  cert_written = ap (λ x. (x, w2)) e2;
                  key_written = ap₂ (λ x y. (x, y)) e3 there;
                }
          ]
        ]
      ]

  pub record Issued (cert_dir first : String) (others : List String) (ca_pem : P) (not_after : ℤ)
      (w' : W) : Type 0 where
    pub root : Ca K D
    pub pair : P × P
    pub self_signed : SelfSigned root
    pub leaf_signed : Signed first others root pair
    pub written : Written cert_dir pair.0 pair.1 w'
    pub trusted : ca_pem ≡ crypto.encode "CERTIFICATE" root.der
    pub until : not_after ≡ plus_ℤ root.now webhook_certificate_validity

  -- A generation without error has made a CA that signed itself, a serving certificate for the names
  -- asked for, which that CA signed, and its key; it has written both to the directory, the key last; and
  -- it returns that CA's certificate and the end of the serving certificate's validity.
  pub generate_webhook_serving_certificate-Issued :
      (cert_dir first : String) (others : List String) (w w' : W) (ca_pem : P) (not_after : ℤ)
      → generate_webhook_serving_certificate crypto cert_dir (first ∷ others) w
        ≡ (ok (ca_pem, not_after), w')
      → Issued cert_dir first others ca_pem not_after w'
  unfolding generate_webhook_serving_certificate
  generate_webhook_serving_certificate-Issued cert_dir first others w w' ca_pem not_after h =
      let (r1, w1) = generate_ca crypto w in
      elim (Result-cases r1) [
        | inr (x, e) ↦ absurd (ground (arith, e))
        | inl (ca, e1) ↦
            let (r2, w2) = generate_leaf crypto first others ca w1 in
            elim (Result-cases r2) [
              | inr (x, e) ↦ absurd (ground (arith, e1, e))
              | inl (pair, e2) ↦
                  let (r3, w3) = write_pair crypto cert_dir pair.0 pair.1 w2 in
                  elim (Result-cases r3) [
                    | inr (x, e) ↦ absurd (ground (arith, e1, e2, e))
                    | inl (u, e3) ↦
                        let there : w3 ≡ w' = ground (arith, e1, e2, e3) in
                        record {
                          root = ca;
                          pair = pair;
                          self_signed = generate_ca-SelfSigned w w1 ca (ap (λ x. (x, w1)) e1);
                          leaf_signed =
                              generate_leaf-Signed first others ca w1 w2 pair
                                (ap (λ x. (x, w2)) e2);
                          written =
                              write_pair-Written cert_dir pair.0 pair.1 w2 w' u
                                (ap₂ (λ x y. (x, y)) e3 there);
                          trusted = ground (arith, e1, e2, e3);
                          until = ground (arith, e1, e2, e3);
                        }
                  ]
            ]
      ]
