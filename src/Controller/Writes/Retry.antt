-- ===== src/Controller/Writes/Retry.antt =====
-- The status update under conflicts (internal/controller/plant_controller.go: reconcileStatus).
use k8s_buddy.Common.{ℕ, zero, suc, ◌≡◌, refl, ap, ◌∙◌, Result, ok, err}
use k8s_buddy.Plant.{PlantStatus, Plant}
use k8s_buddy.Controller.Types.{ApiError, not_found, conflict, failed}
use k8s_buddy.Controller.Setup.{Setup}
use k8s_buddy.Controller.Writes.{Written, retry_read, retry_update, update_on_conflict}

module _ {W B F : Type 0} (setup : Setup W B F) where
  open setup use {client}

  -- The last request of a retried update: it wrote the status that was computed, and was accepted.
  pub record Accepted (new : PlantStatus) (stored : Plant) (w : W) : Type 0 where
    pub sent : Plant
    pub before : W
    pub carries : sent.status ≡ new
    pub accepted : client.update_status sent before ≡ (ok stored, w)

  -- An attempt that keeps to this: with the computed status it reports no error only if accepted.
  abbrev Sound : PlantStatus → (Plant → W → Written setup) → Type 0
  Sound new again =
      (p : Plant) (w : W) (stored : Plant)
      → p.status ≡ new
      → (again p w).0 ≡ ok stored
      → Accepted new stored (again p w).1

  retry_read-Accepted :
      (again : Plant → W → Written setup) (plant : Plant) (new : PlantStatus)
      (answer : Result ApiError Plant × W) (stored : Plant)
      → Sound new again
      → plant.status ≡ new
      → (retry_read setup again plant new answer).0 ≡ ok stored
      → Accepted new stored (retry_read setup again plant new answer).1
  unfolding retry_read
  retry_read-Accepted again plant new (ok latest, w) stored sound same h =
      sound (record latest { status = new }) w stored refl h
  retry_read-Accepted again plant new (err conflict, w) stored sound same h =
      sound plant w stored same h
  retry_read-Accepted again plant new (err not_found, w) stored sound same h = cc
  retry_read-Accepted again plant new (err (failed s), w) stored sound same h = cc

  retry_update-Accepted :
      (again : Plant → W → Written setup) (plant : Plant) (new : PlantStatus) (w : W)
      (answer : Result ApiError Plant × W) (stored : Plant)
      → Sound new again
      → plant.status ≡ new
      → client.update_status plant w ≡ answer
      → (retry_update setup again plant new answer).0 ≡ ok stored
      → Accepted new stored (retry_update setup again plant new answer).1
  unfolding retry_update
  retry_update-Accepted again plant new w (ok p, v) stored sound same sent h =
      let answered : p ≡ stored = cc in
      record {
        sent = plant;
        before = w;
        carries = same;
        accepted = sent ∙ ap (λ a. (ok a, v)) answered;
      }
  retry_update-Accepted again plant new w (err conflict, v) stored sound same sent h =
      retry_read-Accepted again plant new (client.get_plant plant.namespace plant.name v) stored
        sound same h
  retry_update-Accepted again plant new w (err not_found, v) stored sound same sent h = cc
  retry_update-Accepted again plant new w (err (failed s), v) stored sound same sent h = cc

  -- A status update that reports no error, however many conflicts it met on the way, ends with a write
  -- of the computed status that the API server accepted, and with the Plant that it answered with.
  pub update_on_conflict-Accepted :
      (n : ℕ) (plant : Plant) (new : PlantStatus) (w : W) (stored : Plant)
      → plant.status ≡ new
      → (update_on_conflict setup n plant new w).0 ≡ ok stored
      → Accepted new stored (update_on_conflict setup n plant new w).1
  unfolding update_on_conflict
  update_on_conflict-Accepted zero plant new w stored same h = cc
  update_on_conflict-Accepted (suc n) plant new w stored same h =
      retry_update-Accepted (λ p v. update_on_conflict setup n p new v) plant new w
        (client.update_status plant w) stored
        (λ p v stored q k. update_on_conflict-Accepted n p new v stored q k) same refl h
