-- ===== src/Api/Recorder.antt =====
-- How a response reaches the client (internal/api/middleware.go: statusRecorder; internal/api/handlers.go: writeJSON).
pub mod Nested
use k8s_buddy.Common.{ℕ, Bool, true, false, List, [], ◌∷◌, if◌then◌else◌}

-- `http.ResponseWriter`, on its state: `X` is what is written.
pub record ResponseWriter (X W : Type 0) : Type 0 where
  pub write_header : ℕ → W → W
  pub write : X → W → W

-- `statusRecorder`
pub record Recorder (W : Type 0) : Type 0 where
  pub inner : W
  pub status : ℕ
  pub wrote_header : Bool

abbrev pub new_recorder : {W : Type 0} → W → Recorder W
new_recorder w = record { inner = w; status = 200; wrote_header = false }

-- What a handler does to its writer.
pub data WriterOp (X : Type 0) : Type 0 where
  header : ℕ → WriterOp X
  body : X → WriterOp X

module _ {X W : Type 0} (writer : ResponseWriter X W) where
  unfoldable pub write_header : ℕ → Recorder W → Recorder W
  write_header code r = record {
    inner = writer.write_header code r.inner;
    status = if r.wrote_header then r.status else code;
    wrote_header = true;
  }

  unfoldable pub write : X → Recorder W → Recorder W
  unfolding write_header
  write b r =
      let r' = if r.wrote_header then r else write_header 200 r in
      record r' { inner = writer.write b r'.inner }

  -- A recorder is itself a `http.ResponseWriter`.
  unfoldable pub recording : ResponseWriter X (Recorder W)
  unfolding write_header write
  recording = record { write_header = write_header; write = write }

  unfoldable pub run_op : WriterOp X → W → W
  run_op (header code) w = writer.write_header code w
  run_op (body b) w = writer.write b w

  unfoldable pub run_ops : List (WriterOp X) → W → W
  unfolding run_op
  run_ops [] w = w
  run_ops (o ∷ os) w = run_ops os (run_op o w)

-- `writeJSON`
abbrev pub write_json : {X : Type 0} → ℕ → X → List (WriterOp X)
write_json status b = header status ∷ body b ∷ []

-- The status that is sent to a client: the first header's, 200 where a body comes first.
unfoldable pub sent_status : {X : Type 0} → List (WriterOp X) → ℕ
sent_status [] = 200
sent_status (header code ∷ os) = code
sent_status (body b ∷ os) = 200
