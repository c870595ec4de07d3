-- ===== src/Api/Recorder/Nested.antt =====
-- Nested recorders agree (internal/api/middleware.go).
use k8s_buddy.Common.{◌≡◌, refl, true, List, [], ◌∷◌, arith}
use k8s_buddy.Api.Recorder.{
  ResponseWriter, Recorder, new_recorder, WriterOp, header, body, write_header, write, recording,
  run_op, run_ops, sent_status,
}

module _ {X W : Type 0} (writer : ResponseWriter X W) where
  latched :
      (os : List (WriterOp X)) (r : Recorder W)
      → r.wrote_header ≡ true
      → (run_ops (recording writer) os r).status ≡ r.status
  unfolding run_ops run_op recording write_header write
  latched [] r h = refl
  latched (header code ∷ os) r h = ground (arith, h, latched os (write_header writer code r) refl)
  latched (body b ∷ os) r h = ground (arith, h, latched os (write writer b r))

  -- Whatever a handler writes, a fresh recorder's status is the one that the client is sent.
  pub recorded_status :
      (os : List (WriterOp X)) (w : W)
      → (run_ops (recording writer) os (new_recorder w)).status ≡ sent_status os
  unfolding run_ops run_op recording write_header write sent_status
  recorded_status [] w = refl
  recorded_status (header code ∷ os) w = latched os (write_header writer code (new_recorder w)) refl
  recorded_status (body b ∷ os) w = latched os (write writer b (new_recorder w)) refl

  Agree : Recorder (Recorder W) → Type 0
  Agree r = (r.status ≡ r.inner.status) × (r.wrote_header ≡ r.inner.wrote_header)

  run_op-Agree :
      (o : WriterOp X) (r : Recorder (Recorder W))
      → Agree r
      → Agree (run_op (recording (recording writer)) o r)
  unfolding run_op recording write_header write Agree
  run_op-Agree (header code) r h = ground (arith, h.0, h.1)
  run_op-Agree (body b) r h = ground (arith, h.0, h.1)

  -- Of two nested recorders, the metrics' in the request log's, both record the same status.
  pub run_ops-Agree :
      (os : List (WriterOp X)) (r : Recorder (Recorder W))
      → (r.status ≡ r.inner.status) × (r.wrote_header ≡ r.inner.wrote_header)
      → (run_ops (recording (recording writer)) os r).status
        ≡ (run_ops (recording (recording writer)) os r).inner.status
  unfolding run_ops Agree
  run_ops-Agree [] r h = h.0
  run_ops-Agree (o ∷ os) r h =
      run_ops-Agree os (run_op (recording (recording writer)) o r) (run_op-Agree o r h)
