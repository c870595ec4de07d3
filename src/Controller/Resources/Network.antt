-- ===== src/Controller/Resources/Network.antt =====
-- The NetworkPolicy and the ServiceMonitor of a Plant (internal/controller/resources.go). The
-- ServiceMonitor is an unstructured object, whose content `J` and its accessors are arguments.
use k8s_buddy.Common.{String, Option, some, List, [], ◌∷◌, ◌≡◌, ℤ, pos, Result, ok, err}
use k8s_buddy.Plant.{Plant}
use k8s_buddy.Controller.Types.{Object}
use k8s_buddy.Controller.Resources.{
  container_port_name, container_port, LabelMap, selector_for, object_for,
}
use k8s_buddy.Controller.Resources.Companions.{IntOrString, int}

abbrev pub dns_port_number : ℤ
dns_port_number = pos 53

abbrev pub service_monitor_scrape_interval : String
service_monitor_scrape_interval = "30s"

pub record NetworkPolicyPort : Type 0 where
  pub protocol : String
  pub port : IntOrString

-- A rule without peers admits every source.
pub record IngressRule : Type 0 where
  pub from : List LabelMap
  pub ports : List NetworkPolicyPort

-- Each peer is a namespace selector.
pub record EgressRule : Type 0 where
  pub to : List LabelMap
  pub ports : List NetworkPolicyPort

pub record NetworkPolicy (U : Type 0) : Type 0 where
  pub pod_selector : LabelMap
  pub policy_types : List String
  pub ingress : List IngressRule
  pub egress : List EgressRule
  pub others : U

module _ {U : Type 0} (unset : U) where
  unfoldable pub network_policy_for : Plant → Object (NetworkPolicy U)
  network_policy_for p =
      let dns_port = int dns_port_number in
      let http_port = int (pos container_port) in
      object_for p.name p (record {
        pod_selector = selector_for p;
        policy_types = "Ingress" ∷ "Egress" ∷ [];
        ingress =
            (record { from = []; ports = (record { protocol = "TCP"; port = http_port }) ∷ [] })
            ∷ [];
        egress =
            (record {
              to = (("kubernetes.io/metadata.name", "kube-system") ∷ []) ∷ [];
              ports =
                  (record { protocol = "UDP"; port = dns_port })
                  ∷ (record { protocol = "TCP"; port = dns_port })
                  ∷ [];
            })
            ∷ [];
        others = unset;
      })

-- A JSON value of strings, maps and slices, as the spec below is built from.
mutual
  pub data Value : Type 0 where
    text : String → Value
    object : Fields → Value
    array : Items → Value

  pub data Fields : Type 0 where
    end : Fields
    field : String → Value → Fields → Fields

  pub data Items : Type 0 where
    nil : Items
    cons : Value → Items → Items

-- `unstructured.Unstructured` but for its metadata: its content when it has none of its own, and
-- `SetNestedMap` and `NestedMap` at the key `spec`.
pub record Unstructured (J : Type 0) : Type 0 where
  pub empty : J
  pub set_spec : Fields → J → Result String J
  pub spec : J → Result String (Option Fields)

-- What is documented of them: a spec can be set on an empty object, one that was set is found, and
-- setting it again changes nothing.
pub record IsUnstructured {J : Type 0} (u : Unstructured J) : Type 0 where
  pub set_empty : (s : Fields) → (j : J) × (u.set_spec s u.empty ≡ ok j)
  pub spec-set : (s : Fields) (j j' : J) → u.set_spec s j ≡ ok j' → u.spec j' ≡ ok (some s)
  pub set_twice : (s : Fields) (j j' : J) → u.set_spec s j ≡ ok j' → u.set_spec s j' ≡ ok j'

unfoldable pub string_map_to_interface_map : LabelMap → Fields
string_map_to_interface_map [] = end
string_map_to_interface_map ((k, v) ∷ m) = field k (text v) (string_map_to_interface_map m)

unfoldable pub monitor_spec : Plant → Fields
unfolding string_map_to_interface_map
monitor_spec p =
    field "selector"
      (object (field "matchLabels" (object (string_map_to_interface_map (selector_for p))) end))
      (field "endpoints"
        (array (
          cons
            (object (
              field "port" (text container_port_name) (
                field "path" (text "/metrics")
                  (field "interval" (text service_monitor_scrape_interval) end))))
            nil))
        end)

-- An error stands for the panic.
unfoldable pub service_monitor_for :
    {J : Type 0} → Unstructured J → Plant → Result String (Object J)
unfolding monitor_spec
service_monitor_for u p = elim (u.set_spec (monitor_spec p) u.empty) [
  | err e ↦ err e
  | ok content ↦ ok (object_for p.name p content)
]
