-- ===== src/Api/Server.antt =====
-- The HTTP service of buddy-api (internal/api/server.go, internal/api/handlers.go). The random draws, the
-- clock's readings and the request's decoded body are given with a request. A handler returns the
-- server it leaves and what it writes; `panicked` is a panic that unwinds out of it.
pub mod Routes
pub mod Work
use Prim.Native.String.{◌++◌ as append}
use k8s_buddy.Common.{
  ℕ, zero, suc, ◌+◌, ◌-◌, ◌%◌, ◌/◌, ◌^◌, ltb, String, Bool, true, false, not, ◌&&◌, Option, none,
  some, List, [], ◌∷◌, ℤ, pos, negsuc, pos_part, neg_part, sub_ℕ, ltb_ℤ, leb_ℤ, str_eq,
  if◌then◌else◌, Result, ok, err,
}
use k8s_buddy.Common.Float.{FloatOps}
use k8s_buddy.Mood.{Signals, Report, new_report}
use k8s_buddy.Api.Window.{WorkWindow, zero_window, observe, error_rate, p95}
use k8s_buddy.Api.Metrics.{
  Metrics, outcome_success, outcome_warning, outcome_failure, observe_work, set_health,
}
use k8s_buddy.Api.Recorder.{WriterOp, write_json}

-- `Config`, less its random source.
pub record Config (F : Type 0) : Type 0 where
  pub plant_name : String
  pub species : String
  pub latency_budget : ℤ
  pub work_error_rate : F
  pub work_min_delay : ℤ
  pub work_max_delay : ℤ
  pub enable_chaos_endpoints : Bool
  pub health_refresh_interval : ℤ

pub record Server (F : Type 0) : Type 0 where
  pub cfg : Config F
  pub metrics : Metrics F
  pub started_at : ℤ
  pub ready : Bool
  pub work : WorkWindow

-- What a handler writes to the body.
pub data Body (F : Type 0) : Type 0 where
  status_body : String → Body F
  report_body : Report F → Body F
  work_response : (outcome : String) (delay_ms : ℤ) (message : String) → Body F
  exposition : String → Body F

pub record Answer (F : Type 0) : Type 0 where
  pub server : Server F
  pub writes : List (WriterOp (Body F))
  pub panicked : Bool

-- What a request brings, and what is drawn and read while it is handled: the outcomes of
-- `rand.Int63n` and `rand.Float64`, and the clock. A body that does not decode is `none`.
pub record Request (F : Type 0) : Type 0 where
  pub method : String
  pub path : String
  pub ready_body : Option Bool
  pub int63 : ℕ
  pub roll : F
  pub now : ℤ

abbrev pub plus_ℤ : ℤ → ℤ → ℤ
plus_ℤ a b = sub_ℕ (pos_part a + pos_part b) (neg_part a + neg_part b)

abbrev pub minus_ℤ : ℤ → ℤ → ℤ
minus_ℤ a b = sub_ℕ (pos_part a + neg_part b) (neg_part a + pos_part b)

-- `d.Milliseconds()`, which rounds towards 0.
abbrev pub milliseconds : ℤ → ℤ
milliseconds (pos n) = pos (n / 1000000)
milliseconds (negsuc n) = sub_ℕ 0 (suc n / 1000000)

-- The value of an int64 whose bits are those of `z`.
unfoldable pub int64 : ℤ → ℤ
int64 (pos n) = let r = n % 2 ^ 64 in if ltb r (2 ^ 63) then pos r else sub_ℕ r (2 ^ 64)
int64 (negsuc n) = let r = n % 2 ^ 64 in if ltb r (2 ^ 63) then negsuc r else sub_ℕ (2 ^ 64) (suc r)

-- `Int63n(n)`, as the draw modulo `n`; it panics, `none`, where `n` is not positive.
unfoldable pub int63n : ℤ → ℕ → Option ℤ
int63n (pos zero) draw = none
int63n (pos (suc n)) draw = some (pos (draw % suc n))
int63n (negsuc n) draw = none

-- `randomWorkDelay`, with the subtraction and the sums on int64; `none` is a panic.
unfoldable pub random_work_delay : {F : Type 0} → Config F → ℕ → Option ℤ
unfolding int64 int63n
random_work_delay cfg draw =
    let lo = cfg.work_min_delay in
    let hi = cfg.work_max_delay in
    if leb_ℤ hi lo
    then some lo
    else elim (int63n (int64 (plus_ℤ (int64 (minus_ℤ hi lo)) (pos 1))) draw) [
      | none ↦ none
      | some d ↦ some (int64 (plus_ℤ lo d))
    ]

module _ {F : Type 0} (float : FloatOps F) (show_duration : ℤ → String) where
  unfoldable pub new : Config F → Metrics F → ℤ → Server F
  new cfg m now = record {
    cfg = cfg;
    metrics = m;
    started_at = now;
    ready = true;
    work = zero_window;
  }

  -- `none` where `stats` panics.
  unfoldable pub current_report : Server F → ℤ → Option (Report F)
  unfolding error_rate p95 new_report
  current_report s now = elim (p95 s.work) [
    | none ↦ none
    | some p ↦
        let signals : Signals F = record {
          ready = s.ready;
          error_rate = error_rate float s.work;
          p95_latency = p;
          latency_budget = s.cfg.latency_budget;
          restart_count = pos 0;
        } in
        some
          (new_report float signals s.cfg.plant_name s.cfg.species (minus_ℤ now s.started_at) now)
  ]

  unfoldable pub sync_metrics : Report F → Server F → Server F
  unfolding set_health
  sync_metrics r s = record s { metrics = set_health float r.health_score r.mood r.ready s.metrics }

  -- `s.syncMetrics(s.currentReport())`; the flag is a panic.
  unfoldable pub refresh : ℤ → Server F → Server F × Bool
  unfolding current_report sync_metrics
  refresh now s = elim (current_report s now) [
    | none ↦ (s, true)
    | some r ↦ (sync_metrics r s, false)
  ]

  unfoldable pub set_ready : Bool → ℤ → Server F → Server F × Bool
  unfolding refresh
  set_ready ready now s = refresh now (record s { ready = ready })

  unfoldable pub healthz_handler : Request F → Server F → Answer F
  healthz_handler q s = record {
    server = s;
    writes = write_json 200 (status_body "ok");
    panicked = false;
  }

  unfoldable pub readyz_handler : Request F → Server F → Answer F
  readyz_handler q s = record {
    server = s;
    writes =
        if s.ready
        then write_json 200 (status_body "ready")
        else write_json 503 (status_body "not ready");
    panicked = false;
  }

  unfoldable pub status_handler : Request F → Server F → Answer F
  unfolding current_report sync_metrics
  status_handler q s = elim (current_report s q.now) [
    | none ↦ record { server = s; writes = []; panicked = true }
    | some r ↦ record {
      server = sync_metrics r s;
      writes = write_json 200 (report_body r);
      panicked = false;
    }
  ]

  unfoldable pub work_message : String → ℤ → ℤ → String
  work_message outcome delay budget =
      if str_eq outcome outcome_failure
      then "dropped a leaf: simulated work failure"
      else if str_eq outcome outcome_warning
      then append "took " (
          append (show_duration delay)
            (append ", over the " (append (show_duration budget) " latency budget")))
      else "watered on time"

  unfoldable pub sample_work_outcome : Config F → F → ℤ → String × ℕ
  sample_work_outcome cfg roll delay =
      if float.lt roll cfg.work_error_rate
      then (outcome_failure, 500)
      else if ltb_ℤ (pos 0) cfg.latency_budget && ltb_ℤ cfg.latency_budget delay
      then (outcome_warning, 200)
      else (outcome_success, 200)

  -- `workHandler` from its sampled delay on.
  unfoldable pub worked_answer : ℤ → Request F → Server F → Answer F
  unfolding sample_work_outcome observe observe_work work_message
  worked_answer delay q s =
      let (outcome, status) = sample_work_outcome s.cfg q.roll delay in
      let worked : Server F = record s {
        work = observe delay (str_eq outcome outcome_failure) s.work;
        metrics = observe_work float outcome delay s.metrics;
      } in
      record {
        server = worked;
        writes = write_json status (
            work_response outcome (milliseconds delay)
              (work_message outcome delay s.cfg.latency_budget));
        panicked = false;
      }

  unfoldable pub work_handler : Request F → Server F → Answer F
  unfolding random_work_delay worked_answer
  work_handler q s = elim (random_work_delay s.cfg q.int63) [
    | none ↦ record { server = s; writes = []; panicked = true }
    | some delay ↦ worked_answer delay q s
  ]

  unfoldable pub chaos_readiness_handler : Request F → Server F → Answer F
  unfolding set_ready
  chaos_readiness_handler q s = elim q.ready_body [
    | none ↦ record {
      server = s;
      writes = write_json 400 (status_body "invalid request body");
      panicked = false;
    }
    | some b ↦
        let (s', p) = set_ready b q.now s in
        record {
          server = s';
          writes =
              if p
              then []
              else write_json 200
                  (status_body (if b then "readiness set to true" else "readiness set to false"));
          panicked = p;
        }
  ]
