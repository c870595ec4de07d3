-- ===== src/Controller/Resources/Workload.antt =====
-- The Deployment of a Plant (internal/controller/resources.go: DeploymentFor). A type `U` holds the fields
-- that the builder leaves to the API server, all of them unset in what it builds.
use k8s_buddy.Common.{ℕ, String, Bool, true, false, Option, some, List, [], ◌∷◌, ℤ, pos}
use k8s_buddy.Plant.{Plant}
use k8s_buddy.Controller.Types.{Object}
use k8s_buddy.Controller.Merge.{Container}
use k8s_buddy.Controller.Status.{DeploymentState}
use k8s_buddy.Controller.Resources.{
  container_port_name, container_port, LabelMap, labels_for, selector_for, replicas_for, object_for,
  Resources, resources_for,
}

abbrev pub container_name : String
container_name = "buddy-api"

abbrev pub run_as_user : ℕ
run_as_user = 65532

abbrev pub termination_grace_period_seconds : ℕ
termination_grace_period_seconds = 30

pub record PodSecurityContext : Type 0 where
  pub run_as_non_root : Bool
  pub run_as_user : ℕ
  pub seccomp_profile : String

pub record SecurityContext : Type 0 where
  pub run_as_non_root : Bool
  pub run_as_user : ℕ
  pub allow_privilege_escalation : Bool
  pub read_only_root_filesystem : Bool
  pub drop_capabilities : List String
  pub seccomp_profile : String

pub record TopologySpreadConstraint : Type 0 where
  pub max_skew : ℕ
  pub topology_key : String
  pub when_unsatisfiable : String
  pub label_selector : LabelMap

pub record ContainerPort : Type 0 where
  pub name : String
  pub container_port : ℕ
  pub protocol : String

-- An HTTP probe; the port is the name of a container port.
pub record Probe : Type 0 where
  pub path : String
  pub port : String
  pub scheme : String
  pub timeout_seconds : ℕ
  pub period_seconds : ℕ
  pub success_threshold : ℕ
  pub failure_threshold : ℕ

-- The fields of a container that the operator manages. `env_from` names ConfigMaps.
pub record Managed : Type 0 where
  pub image : String
  pub image_pull_policy : String
  pub ports : List ContainerPort
  pub env_from : List String
  pub security_context : Option SecurityContext
  pub resources : Resources
  pub liveness_probe : Option Probe
  pub readiness_probe : Option Probe
  pub startup_probe : Option Probe

pub record PodSpec (U : Type 0) : Type 0 where
  pub service_account_name : String
  pub automount_service_account_token : Option Bool
  pub security_context : Option PodSecurityContext
  pub topology_spread_constraints : List TopologySpreadConstraint
  pub termination_grace_period_seconds : Option ℕ
  pub containers : List (Container Managed U)
  pub others : U

-- `state` is what the server keeps: the generation and the status.
pub record Deployment (U : Type 0) : Type 0 where
  pub replicas : Option ℤ
  pub selector : Option LabelMap
  pub template_labels : LabelMap
  pub pod_spec : PodSpec U
  pub state : DeploymentState
  pub others : U

abbrev pub no_state : DeploymentState
no_state = record { generation = pos 0; observed_generation = pos 0; ready_replicas = pos 0 }

-- What the three probes share.
abbrev pub probe : String → ℕ → ℕ → Probe
probe path period failures = record {
  path = path;
  port = container_port_name;
  scheme = "HTTP";
  timeout_seconds = 1;
  period_seconds = period;
  success_threshold = 1;
  failure_threshold = failures;
}

abbrev pub managed_for : Plant → Managed
managed_for p = record {
  image = p.spec.image;
  image_pull_policy = "IfNotPresent";
  ports =
      (record { name = container_port_name; container_port = container_port; protocol = "TCP" })
      ∷ [];
  env_from = p.name ∷ [];
  security_context = some (record {
    run_as_non_root = true;
    run_as_user = run_as_user;
    allow_privilege_escalation = false;
    read_only_root_filesystem = true;
    drop_capabilities = "ALL" ∷ [];
    seccomp_profile = "RuntimeDefault";
  });
  resources = resources_for p.spec.resource_profile;
  liveness_probe = some (probe "/healthz" 10 3);
  readiness_probe = some (probe "/readyz" 2 2);
  startup_probe = some (probe "/healthz" 2 15);
}

module _ {U : Type 0} (unset : U) where
  abbrev pub pod_spec_for : Plant → PodSpec U
  pod_spec_for p = record {
    service_account_name = p.name;
    automount_service_account_token = some false;
    security_context = some (record {
      run_as_non_root = true;
      run_as_user = run_as_user;
      seccomp_profile = "RuntimeDefault";
    });
    topology_spread_constraints =
        (record {
          max_skew = 1;
          topology_key = "kubernetes.io/hostname";
          when_unsatisfiable = "ScheduleAnyway";
          label_selector = selector_for p;
        })
        ∷ [];
    termination_grace_period_seconds = some termination_grace_period_seconds;
    containers = (record { name = container_name; managed = managed_for p; others = unset }) ∷ [];
    others = unset;
  }

  unfoldable pub deployment_for : Plant → Object (Deployment U)
  deployment_for p = object_for p.name p (record {
    replicas = some (replicas_for p);
    selector = some (selector_for p);
    template_labels = labels_for p;
    pod_spec = pod_spec_for p;
    state = no_state;
    others = unset;
  })
