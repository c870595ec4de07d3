-- ===== src/Operator/Bootstrap/Ready.antt =====
-- What holds when the manager starts (cmd/plant-operator/main.go).
use k8s_buddy.Common.{
  ◌≡◌, refl, ap, ap₂, ◌∙◌, String, List, ◌∷◌, ℤ, ok, arith, Result-cases, Option-cases, inl, inr,
}
use k8s_buddy.Operator.Bundle.{Pem}
use k8s_buddy.Operator.Patch.{
  Direct, mutating_configuration, validating_configuration, patch_webhook_ca_bundles,
}
use k8s_buddy.Operator.Patch.Accepted.{Patched, patch_webhook_ca_bundles-Patched}
use k8s_buddy.Operator.Serving.{
  Crypto, generate_webhook_serving_certificate, webhook_service_dns_names,
}
use k8s_buddy.Operator.Serving.Issued.{Issued, generate_webhook_serving_certificate-Issued}
use k8s_buddy.Operator.Bootstrap.{started, patch_generated, bootstrap}

module _ {W K D P O : Type 0} (crypto : Crypto W K D P) (pem : Pem P) (direct : Direct W P O) where
  pub record Ready (cert_dir service_name pod_namespace mutating_name validating_name : String)
      (not_after : ℤ) (w' : W) : Type 0 where
    pub ca_pem : P
    pub generated : W
    pub name : String
    pub others : List String
    pub names : name ∷ others ≡ webhook_service_dns_names service_name pod_namespace
    pub issued : Issued crypto cert_dir name others ca_pem not_after generated
    pub first : W
    pub mutating : Patched pem direct ca_pem mutating_configuration mutating_name first
    pub validating : Patched pem direct ca_pem validating_configuration validating_name w'

  -- When the process comes to start its manager, the serving certificate for the names of the webhook's
  -- Service is on disk, signed by a CA, and each webhook of both configurations had its bundle replaced by
  -- the merge of that bundle with this CA, by writes that the API server accepted.
  pub bootstrap-Ready :
      (cert_dir service_name pod_namespace mutating_name validating_name : String) (w w' : W)
      (not_after : ℤ)
      → bootstrap crypto pem direct cert_dir service_name pod_namespace mutating_name
          validating_name w
        ≡ (ok not_after, w')
      → Ready cert_dir service_name pod_namespace mutating_name validating_name not_after w'
  unfolding bootstrap patch_generated started
  bootstrap-Ready cert_dir service_name pod_namespace mutating_name validating_name w w' not_after
        h =
      let names = webhook_service_dns_names service_name pod_namespace in
      let (r1, w1) = generate_webhook_serving_certificate crypto cert_dir names w in
      elim (Result-cases r1) [
        | inr (x, e) ↦ absurd (ground (arith, e))
        | inl ((ca, until), e1) ↦
            let (r2, w2) =
              patch_webhook_ca_bundles pem direct ca mutating_name validating_name w1 in
            elim (Option-cases r2) [
              | inr (x, e) ↦ absurd (ground (arith, e1, e))
              | inl e2 ↦
                  let there : w2 ≡ w' = ground (arith, e1, e2) in
                  let same : until ≡ not_after = ground (arith, e1, e2) in
                  let ((v, mutating), validating) =
                    patch_webhook_ca_bundles-Patched pem direct ca mutating_name validating_name w1
                      w' (ap₂ (λ x y. (x, y)) e2 there) in
                  record {
                    ca_pem = ca;
                    generated = w1;
                    name = service_name;
                    others = _;
                    names = refl;
                    issued =
                        generate_webhook_serving_certificate-Issued crypto cert_dir service_name _ w
                          w1 ca not_after (ap (λ x. (x, w1)) (e1 ∙ ap (λ u. ok (ca, u)) same));
                    first = v;
                    mutating = mutating;
                    validating = validating;
                  }
            ]
      ]
