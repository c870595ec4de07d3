-- ===== src/Plant.antt =====
-- The Plant API type (api/v1alpha1/plant_types.go), and its admission webhooks.
pub mod Webhook
mod Tests
use k8s_buddy.Common.{ℕ, String, Bool, Option, List, ℤ}

-- `metav1.Condition`
pub record Condition : Type 0 where
  pub type : String
  pub status : String
  pub reason : String
  pub message : String
  pub observed_generation : ℤ
  pub last_transition_time : ℤ

-- A duration is a signed number of nanoseconds; `none` replicas is a nil pointer.
pub record PlantSpec : Type 0 where
  pub species : String
  pub replicas : Option ℤ
  pub image : String
  pub resource_profile : String
  pub watering_interval : ℤ
  pub latency_budget : ℤ
  pub chaos_enable_endpoints : Bool

-- `mood` is the string of a `Mood`.
pub record PlantStatus : Type 0 where
  pub mood : String
  pub health_percent : ℤ
  pub ready_replicas : ℤ
  pub desired_replicas : ℤ
  pub observed_generation : ℤ
  pub last_watered : Option ℤ
  pub conditions : List Condition

-- `deleting`: the deletion timestamp is set.
pub record Plant : Type 0 where
  pub name : String
  pub namespace : String
  pub uid : String
  pub generation : ℤ
  pub deleting : Bool
  pub spec : PlantSpec
  pub status : PlantStatus
