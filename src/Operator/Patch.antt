-- ===== src/Operator/Patch.antt =====
-- Patching the CA bundle onto the two webhook configurations (cmd/plant-operator/webhookcerts.go:
-- patchWebhookCABundles, patchOneWebhookCABundle, retryableGetError). The wait between two attempts is
-- an argument: it answers with whether the context still stands. As k8s.io/apimachinery's wait documents,
-- a delay that would grow beyond the cap leaves no further step of a backoff.
pub mod Accepted
use k8s_buddy.Common.{
  ℕ, zero, suc, ◌==◌, String, Bool, true, false, not, ltb, ◌*◌, ◌/◌, Option, none, some, List, [],
  ◌∷◌, map, ℤ, Result, ok, err, if◌then◌else◌,
}
use k8s_buddy.Controller.Types.{ApiError, not_found, conflict, failed}
use k8s_buddy.Operator.Bundle.{Pem, merge_ca_bundle}

-- A webhook of a configuration: its bundle, and its other fields.
pub record Hook (P O : Type 0) : Type 0 where
  pub ca_bundle : P
  pub others : O

-- A MutatingWebhookConfiguration or a ValidatingWebhookConfiguration.
pub record Configuration (P O : Type 0) : Type 0 where
  pub name : String
  pub webhooks : List (Hook P O)
  pub others : O

pub data PatchError : Type 0 where
  building : ApiError → PatchError
  getting : (kind name : String) → ApiError → PatchError
  patching : (kind name : String) → ApiError → PatchError
  timed_out canceled : PatchError

-- What the patch calls: the API server, the clock, and the wait of a backoff before its next attempt.
pub record Direct (W P O : Type 0) : Type 0 where
  pub new_client : W → Option ApiError × W
  pub get : (kind name : String) → W → Result ApiError (Configuration P O) × W
  pub update : (kind : String) → Configuration P O → W → Option ApiError × W
  pub now : W → ℤ × W
  pub wait : (delay : ℕ) → W → Bool × W

-- `(bool, error)` of an attempt.
pub data Attempt : Type 0 where
  done again : Attempt
  fatal : PatchError → Attempt

-- `wait.Backoff{Duration: 2s, Factor: 1.5, Steps: 10, Cap: 30s}`, in nanoseconds.
abbrev pub steps : ℕ
steps = 10

abbrev pub first_delay : ℕ
first_delay = 2_000_000_000

abbrev pub cap : ℕ
cap = 30_000_000_000

-- The delay times the factor, which is exact while it is within the cap.
unfoldable pub grown : ℕ → ℕ
grown delay = delay * 3 / 2

abbrev pub mutating_configuration : String
mutating_configuration = "MutatingWebhookConfiguration"

abbrev pub validating_configuration : String
validating_configuration = "ValidatingWebhookConfiguration"

unfoldable pub retryable_get_error : (kind name : String) → ApiError → Attempt
retryable_get_error kind name not_found = again
retryable_get_error kind name conflict = fatal (getting kind name conflict)
retryable_get_error kind name (failed s) = fatal (getting kind name (failed s))

unfoldable pub update_answer : (kind name : String) → Option ApiError → Attempt
update_answer kind name none = done
update_answer kind name (some conflict) = again
update_answer kind name (some not_found) = fatal (patching kind name not_found)
update_answer kind name (some (failed s)) = fatal (patching kind name (failed s))

module _ {W P O : Type 0} (pem : Pem P) (direct : Direct W P O) (ca : P) where
  -- The loop over the webhooks; each merge reads the clock.
  unfoldable pub merge_hooks : List (Hook P O) → W → List (Hook P O) × W
  unfolding merge_ca_bundle
  merge_hooks [] w = ([], w)
  merge_hooks (h ∷ hs) w =
      let (now, w') = direct.now w in
      let (rest, w'') = merge_hooks hs w' in
      ((record h { ca_bundle = merge_ca_bundle pem now h.ca_bundle ca }) ∷ rest, w'')

  unfoldable pub patch_read :
      (kind name : String) → Result ApiError (Configuration P O) × W → Attempt × W
  unfolding merge_hooks retryable_get_error update_answer
  patch_read kind name (err e, w) = (retryable_get_error kind name e, w)
  patch_read kind name (ok obj, w) =
      let (hooks, w') = merge_hooks obj.webhooks w in
      let (e, w'') = direct.update kind (record obj { webhooks = hooks }) w' in
      (update_answer kind name e, w'')

  -- The condition of the backoff, one attempt.
  unfoldable pub patch_once : (kind name : String) → W → Attempt × W
  unfolding patch_read
  patch_once kind name w = patch_read kind name (direct.get kind name w)

  -- `wait.ExponentialBackoffWithContext`, with the steps that are left and the next delay. There is no
  -- wait after the last step; where the delay grows beyond the cap, the wait is the last thing done.
  unfoldable pub patch_steps : (n delay : ℕ) → (kind name : String) → W → Option PatchError × W
  unfolding patch_once grown
  patch_steps zero delay kind name w = (some timed_out, w)
  patch_steps (suc n) delay kind name w =
      let (a, w') = patch_once kind name w in
      let (stands, w'') = direct.wait delay w' in
      let rest = patch_steps n (grown delay) kind name w'' in
      elim a [
        | done ↦ (none, w')
        | fatal e ↦ (some e, w')
        | again ↦
            if n == 0
            then (some timed_out, w')
            else if not stands
            then (some canceled, w'')
            else if ltb cap (grown delay)
            then (some timed_out, w'')
            else rest
      ]

  unfoldable pub patch_one_webhook_ca_bundle : (kind name : String) → W → Option PatchError × W
  unfolding patch_steps
  patch_one_webhook_ca_bundle kind name w = patch_steps steps first_delay kind name w

  -- From the first configuration on.
  unfoldable pub patch_second :
      (validating_name : String) → Option PatchError × W → Option PatchError × W
  unfolding patch_one_webhook_ca_bundle
  patch_second validating_name (some e, w) = (some e, w)
  patch_second validating_name (none, w) =
      patch_one_webhook_ca_bundle validating_configuration validating_name w

  unfoldable pub patch_webhook_ca_bundles :
      (mutating_name validating_name : String) → W → Option PatchError × W
  unfolding patch_second
  patch_webhook_ca_bundles mutating_name validating_name w =
      let (e, w') = direct.new_client w in
      elim e [
        | some x ↦ (some (building x), w')
        | none ↦
            patch_second validating_name
              (patch_one_webhook_ca_bundle mutating_configuration mutating_name w')
      ]
