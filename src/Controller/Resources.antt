-- ===== src/Controller/Resources.antt =====
-- What the children of a Plant have in common (internal/controller/resources.go: the label keys and
-- values, LabelsFor, SelectorFor, replicasFor, ResourcesFor), and which labels a selector matches.
pub mod Workload
pub mod Companions
pub mod Network
pub mod Selectors
pub mod Disruption
pub mod Wiring
use k8s_buddy.Common.{
  ℕ, String, Bool, true, false, ◌&&◌, Option, none, some, List, [], ◌∷◌, ℤ, pos, negsuc, str_eq,
  eqb_ℤ, pos_part, neg_part, sub_ℕ, ◌+◌, if◌then◌else◌,
}
use k8s_buddy.Common.Dict.{string_eq, lookup}
use k8s_buddy.Plant.{Plant}
use k8s_buddy.Controller.Types.{Object}
use k8s_buddy.Controller.Apply.{label_managed_by, app_managed_by, has_value}
use k8s_buddy.Controller.Status.{default_replicas}

abbrev pub label_name : String
label_name = "app.kubernetes.io/name"

abbrev pub label_instance : String
label_instance = "app.kubernetes.io/instance"

abbrev pub label_component : String
label_component = "app.kubernetes.io/component"

abbrev pub label_part_of : String
label_part_of = "app.kubernetes.io/part-of"

abbrev pub label_plant : String
label_plant = "buddy.k8s-buddy.io/plant"

abbrev pub app_name : String
app_name = "buddy-api"

abbrev pub app_component : String
app_component = "api"

abbrev pub app_part_of : String
app_part_of = "k8s-buddy"

abbrev pub container_port_name : String
container_port_name = "http"

abbrev pub container_port : ℕ
container_port = 8080

abbrev pub LabelMap : Type 0
LabelMap = List (String × String)

unfoldable pub labels_for : Plant → LabelMap
labels_for p =
    (label_name, app_name)
    ∷ (label_instance, p.name)
    ∷ (label_component, app_component)
    ∷ (label_part_of, app_part_of)
    ∷ (label_managed_by, app_managed_by)
    ∷ (label_plant, p.name)
    ∷ []

unfoldable pub selector_for : Plant → LabelMap
selector_for p = (label_instance, p.name) ∷ (label_plant, p.name) ∷ []

-- What Kubernetes promises of `matchLabels`: every pair of the selector is among the labels.
unfoldable pub matches : LabelMap → LabelMap → Bool
matches [] labels = true
matches ((k, v) ∷ selector) labels = has_value (lookup k labels) v && matches selector labels

unfoldable pub replicas_for : Plant → ℤ
replicas_for p = elim p.spec.replicas [ none ↦ default_replicas | some n ↦ n ]

-- `n - 1` on an int32, which wraps around at its least value.
abbrev pub minus_one : ℤ → ℤ
minus_one n =
    if eqb_ℤ n (negsuc 2_147_483_647)
    then pos 2_147_483_647
    else sub_ℕ (pos_part n) (neg_part n + 1)

-- A builder's object: the metadata that every one has, without a controller.
abbrev pub object_for : {B : Type 0} → String → Plant → B → Object B
object_for name p body = record {
  namespace = p.namespace;
  name = name;
  labels = labels_for p;
  controller = none;
  body = body;
}

-- A quantity is the text that `resource.MustParse` reads.
pub record ResourceList : Type 0 where
  pub cpu : String
  pub memory : String

pub record Resources : Type 0 where
  pub requests : ResourceList
  pub limits : ResourceList

unfoldable pub resources_for : String → Resources
resources_for profile =
    if str_eq profile "medium"
    then record {
      requests = record { cpu = "100m"; memory = "128Mi" };
      limits = record { cpu = "500m"; memory = "256Mi" };
    }
    else if str_eq profile "large"
    then record {
      requests = record { cpu = "250m"; memory = "256Mi" };
      limits = record { cpu = "1000m"; memory = "512Mi" };
    }
    else record {
      requests = record { cpu = "50m"; memory = "64Mi" };
      limits = record { cpu = "200m"; memory = "128Mi" };
    }
