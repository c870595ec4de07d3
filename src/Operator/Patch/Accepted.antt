-- ===== src/Operator/Patch/Accepted.antt =====
-- What a patch that reports no error has written, and when it reports none
-- (cmd/plant-operator/webhookcerts.go).
use k8s_buddy.Common.{
  ℕ, zero, suc, ◌==◌, ◌≡◌, refl, sym, ap, ap₂, ◌∙◌, ltb, String, true, if◌then◌else◌, Option, none,
  some, List, [], ◌∷◌, ℤ, ok, arith, ◌⊎◌, Bool-cases, Result-cases, Option-cases, inl, inr,
}
use k8s_buddy.Controller.Types.{ApiError, not_found, conflict, failed}
use k8s_buddy.Operator.Bundle.{Pem, merge_ca_bundle}
use k8s_buddy.Operator.Patch.{
  Hook, Configuration, PatchError, Direct, Attempt, done, again, fatal, steps, first_delay, cap,
  grown, mutating_configuration, validating_configuration, retryable_get_error, update_answer,
  merge_hooks, patch_read, patch_once, patch_steps, patch_one_webhook_ca_bundle, patch_second,
  patch_webhook_ca_bundles,
}

Attempt-cases : (a : Attempt) → (a ≡ done) ⊎ ((a ≡ again) ⊎ ((x : PatchError) × (a ≡ fatal x)))
Attempt-cases done = inl refl
Attempt-cases again = inr (inl refl)
Attempt-cases (fatal x) = inr (inr (x, refl))

module _ {W P O : Type 0} (pem : Pem P) (direct : Direct W P O) (ca : P) where
  -- Each webhook with the CA merged into its bundle, at some time, and all else as it was.
  abbrev pub AllMerged : List (Hook P O) → List (Hook P O) → Type 0
  AllMerged [] [] = Unit
  AllMerged [] (h ∷ hs) = ⊥
  AllMerged (h ∷ hs) [] = ⊥
  AllMerged (h ∷ hs) (h' ∷ hs') =
      ((now : ℤ) × (h' ≡ record h { ca_bundle = merge_ca_bundle pem now h.ca_bundle ca }))
      × AllMerged hs hs'

  merge_hooks-AllMerged :
      (hs : List (Hook P O)) (w : W) → AllMerged hs (merge_hooks pem direct ca hs w).0
  unfolding merge_hooks
  merge_hooks-AllMerged [] w = tt
  merge_hooks-AllMerged (h ∷ hs) w =
      (((direct.now w).0, refl), merge_hooks-AllMerged hs (direct.now w).1)

  -- The last write: a configuration as it was read, with the CA merged into each of its webhooks, which
  -- the API server accepted.
  pub record Patched (kind name : String) (w : W) : Type 0 where
    pub asked : W
    pub read : Configuration P O
    pub was_read : (direct.get kind name asked).0 ≡ ok read
    pub hooks : List (Hook P O)
    pub merged : AllMerged read.webhooks hooks
    pub before : W
    pub accepted : direct.update kind (record read { webhooks = hooks }) before ≡ (none, w)

  update_answer-done :
      (kind name : String) (e : Option ApiError) → update_answer kind name e ≡ done → e ≡ none
  unfolding update_answer
  update_answer-done kind name none h = refl
  update_answer-done kind name (some conflict) h = cc
  update_answer-done kind name (some not_found) h = cc
  update_answer-done kind name (some (failed s)) h = cc

  get_error-done :
      (kind name : String) (e : ApiError) {A : Type 0} → retryable_get_error kind name e ≡ done → A
  unfolding retryable_get_error
  get_error-done kind name not_found h = cc
  get_error-done kind name conflict h = cc
  get_error-done kind name (failed s) h = cc

  patch_once-Patched :
      (kind name : String) (w w' : W)
      → patch_once pem direct ca kind name w ≡ (done, w')
      → Patched kind name w'
  unfolding patch_once patch_read
  patch_once-Patched kind name w w' h =
      let (answer, v) = direct.get kind name w in
      elim (Result-cases answer) [
        | inr (e, k) ↦
            get_error-done kind name e
              (ap (λ x. x.0) (ap (λ a. patch_read pem direct ca kind name (a, v)) (sym k) ∙ h))
        | inl (obj, k) ↦
            let (hooks, v') = merge_hooks pem direct ca obj.webhooks v in
            let (e, v'') = direct.update kind (record obj { webhooks = hooks }) v' in
            let out : (update_answer kind name e, v'') ≡ (done, w') =
              ap (λ a. patch_read pem direct ca kind name (a, v)) (sym k) ∙ h in
            record {
              asked = w;
              read = obj;
              was_read = k;
              hooks = hooks;
              merged = merge_hooks-AllMerged obj.webhooks v;
              before = v';
              accepted =
                  ap₂ (λ x y. (x, y)) (update_answer-done kind name e (ap (λ x. x.0) out))
                    (ap (λ x. x.1) out);
            }
      ]

  patch_steps-Patched :
      (n delay : ℕ) (kind name : String) (w w' : W)
      → patch_steps pem direct ca n delay kind name w ≡ (none, w')
      → Patched kind name w'
  unfolding patch_steps
  patch_steps-Patched zero delay kind name w w' h = cc
  patch_steps-Patched (suc n) delay kind name w w' h =
      let (a, v) = patch_once pem direct ca kind name w in
      let (stands, v') = direct.wait delay v in
      elim (Attempt-cases a) [
        | inl e ↦
            let there : v ≡ w' = ground (arith, e) in
            patch_once-Patched kind name w w' (ap₂ (λ x y. (x, y)) e there)
        | inr (inl e) ↦ elim (Bool-cases (n == 0)) [
          | inl z ↦ absurd (ground (arith, e, z))
          | inr z ↦ elim (Bool-cases stands) [
            | inl s ↦ elim (Bool-cases (ltb cap (grown delay))) [
              | inl c ↦ absurd (ground (arith, e, z, s, c))
              | inr c ↦
                  patch_steps-Patched n (grown delay) kind name v' w' (ground (arith, e, z, s, c))
            ]
            | inr s ↦ absurd (ground (arith, e, z, s))
          ]
        ]
        | inr (inr (x, e)) ↦ absurd (ground (arith, e))
      ]

  -- A patch that reports no error has merged the CA into every webhook of both configurations: into the
  -- mutating one first, then into the validating one, each with a write that the API server accepted.
  pub patch_webhook_ca_bundles-Patched :
      (mutating_name validating_name : String) (w w' : W)
      → patch_webhook_ca_bundles pem direct ca mutating_name validating_name w ≡ (none, w')
      → ((v : W) × Patched mutating_configuration mutating_name v)
        × Patched validating_configuration validating_name w'
  unfolding patch_webhook_ca_bundles patch_second patch_one_webhook_ca_bundle
  patch_webhook_ca_bundles-Patched mutating_name validating_name w w' h =
      let (e, w1) = direct.new_client w in
      elim (Option-cases e) [
        | inr (x, k) ↦ absurd (ground (arith, k))
        | inl k ↦
            let (f, v) =
              patch_steps pem direct ca steps first_delay mutating_configuration mutating_name w1 in
            elim (Option-cases f) [
              | inr (x, l) ↦ absurd (ground (arith, k, l))
              | inl l ↦ (
                (
                  v,
                  patch_steps-Patched steps first_delay mutating_configuration mutating_name w1 v
                      (ap (λ x. (x, v)) l),
                ),
                patch_steps-Patched steps first_delay validating_configuration validating_name v w'
                    (ground (arith, k, l)),
              )
            ]
      ]

  -- Attempts that ask for another one, with the context standing after each wait, from the delay on.
  pub data Retried (kind name : String) : ℕ → ℕ → W → W → Type 0 where
    first : {delay : ℕ} (w : W) → Retried kind name delay 0 w w
    later :
        {delay n : ℕ} {w w' w'' v : W}
        → patch_once pem direct ca kind name w ≡ (again, w')
        → direct.wait delay w' ≡ (true, w'')
        → Retried kind name (grown delay) n w'' v
        → Retried kind name delay (suc n) w v

  -- The attempts that the backoff makes.
  attempts : (n delay : ℕ) → ℕ
  unfolding grown
  attempts zero delay = 0
  attempts (suc n) delay =
      let rest = attempts n (grown delay) in if ltb cap (grown delay) then 1 else suc rest
