-- ===== src/Operator/Bootstrap.antt =====
-- The start of the process up to its manager (cmd/plant-operator/main.go).
pub mod Ready
use k8s_buddy.Common.{String, Option, none, some, List, ℤ, Result, ok, err}
use k8s_buddy.Operator.Bundle.{Pem}
use k8s_buddy.Operator.Patch.{PatchError, Direct, patch_webhook_ca_bundles}
use k8s_buddy.Operator.Serving.{
  CertError, Crypto, webhook_service_dns_names, generate_webhook_serving_certificate,
}

pub data StartError : Type 0 where
  certificate : CertError → StartError
  bundles : PatchError → StartError

-- `main` from the names of the certificate to the patched bundles; an error exits the process.
module _ {W K D P O : Type 0} (crypto : Crypto W K D P) (pem : Pem P) (direct : Direct W P O) where
  -- After the patch.
  unfoldable pub started : ℤ → Option PatchError × W → Result StartError ℤ × W
  started not_after (some e, w) = (err (bundles e), w)
  started not_after (none, w) = (ok not_after, w)

  unfoldable pub patch_generated :
      (mutating_name validating_name : String)
      → Result CertError (P × ℤ) × W
      → Result StartError ℤ × W
  unfolding started
  patch_generated mutating_name validating_name (err e, w) = (err (certificate e), w)
  patch_generated mutating_name validating_name (ok (ca, not_after), w) =
      started not_after (patch_webhook_ca_bundles pem direct ca mutating_name validating_name w)

  unfoldable pub bootstrap :
      (cert_dir service_name pod_namespace mutating_name validating_name : String)
      → W
      → Result StartError ℤ × W
  unfolding patch_generated generate_webhook_serving_certificate webhook_service_dns_names
  bootstrap cert_dir service_name pod_namespace mutating_name validating_name w =
      patch_generated mutating_name validating_name (
        generate_webhook_serving_certificate crypto cert_dir
          (webhook_service_dns_names service_name pod_namespace) w)
