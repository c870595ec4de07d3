-- ===== src/Controller/Types.antt =====
-- The data of the reconciler, and the API server that it calls (internal/controller/plant_controller.go).
use k8s_buddy.Common.{String, Option, List, Result}
use k8s_buddy.Plant.{Plant}

-- What the API server answers when it fails: `apierrors.IsNotFound` and `IsConflict` tell these apart.
pub data ApiError : Type 0 where
  not_found conflict : ApiError
  failed : String → ApiError

-- `metav1.OwnerReference`, of a controller.
pub record Owner : Type 0 where
  pub kind : String
  pub name : String
  pub uid : String

-- A child object: its metadata, and whatever else it holds as a body.
pub record Object (B : Type 0) : Type 0 where
  pub namespace : String
  pub name : String
  pub labels : List (String × String)
  pub controller : Option Owner
  pub body : B

-- `conflictingResourceError`; `why` keeps the controller that the message names.
pub record ConflictingResource : Type 0 where
  pub kind : String
  pub namespace : String
  pub name : String
  pub controlled_by : Option Owner

pub data Error : Type 0 where
  fetching : ApiError → Error
  reading : (kind : String) → ApiError → Error
  api : ApiError → Error
  moved : (kind : String) → Error
  conflicting : ConflictingResource → Error
  mutation : String → Error
  reconciling : (kind : String) → Error → Error
  marking : (reason : String) → ApiError → Error
  updating_status : Error → Error

pub data OperationResult : Type 0 where
  unchanged created updated : OperationResult

-- The API server and the event recorder, as operations on a world.
pub record Client (W B : Type 0) : Type 0 where
  pub get_plant : (namespace name : String) → W → Result ApiError Plant × W
  pub get : (kind namespace name : String) → W → Result ApiError (Object B) × W
  pub create : (kind : String) → Object B → W → Result ApiError (Object B) × W
  pub update : (kind : String) → Object B → W → Result ApiError (Object B) × W
  pub update_status : Plant → W → Result ApiError Plant × W
  pub record_event : Plant → (event_type reason message : String) → W → W
