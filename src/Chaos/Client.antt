-- ===== src/Chaos/Client.antt =====
-- `Client`, the implementation of `PodClient` over the clientset and an HTTP client
-- (internal/chaos/kube.go). Both answer from the requests made before; the request's context is
-- canceled while the client waits if `canceled` says so.
pub mod Flap
use k8s_buddy.Common.{
  ℕ, String, Bool, true, false, Option, none, some, List, [], ◌∷◌, map, ℤ, Result, ok, err, str_eq,
  ◌==◌, if◌then◌else◌, wrap_err,
}
use k8s_buddy.Common.Dict.{string_eq, lookup}
use k8s_buddy.Common.Env.{parse_bool}
use k8s_buddy.Chaos.Types.{
  PodRef, ApiError, not_found, failed, Error, api, canceled, list_pods_failed, delete_pod_failed,
  no_ip, set_unready_failed, held_unready, restore_failed, post_failed, unexpected_status,
  emit_event_failed, read_switch_failed, no_switch_key, switch_not_bool,
}
use k8s_buddy.Chaos.Execute.{Message}

-- What `ListPods` reads of a `corev1.Pod`.
pub record Pod : Type 0 where
  pub name : String
  pub namespace : String
  pub uid : String
  pub pod_ip : String

unfoldable pub pod_ref : Pod → PodRef
pod_ref p = record { name = p.name; namespace = p.namespace; uid = p.uid; ip = p.pod_ip }

-- A POST to a pod's chaos endpoint: http://<ip>:8080/chaos/readiness with `{"ready": <ready>}`.
pub record Post : Type 0 where
  pub ip : String
  pub port : ℕ
  pub path : String
  pub ready : Bool

abbrev pub pod_http_port : ℕ
pod_http_port = 8080

abbrev pub chaos_readiness_path : String
chaos_readiness_path = "/chaos/readiness"

abbrev pub switch_key : String
switch_key = "enabled"

-- The `Event` that is created, as far as it depends on the arguments.
pub record PodEvent : Type 0 where
  pub generate_name : String
  pub namespace : String
  pub kind : String
  pub involved_namespace : String
  pub involved_name : String
  pub involved_uid : String
  pub reason : String
  pub message : Message
  pub event_type : String
  pub component : String
  pub count : ℕ

pub record Clientset : Type 0 where
  pub pods_list : (namespace selector : String) → Result ApiError (List Pod)
  pub pods_delete : (namespace name : String) → Option ApiError
  pub events_create : (namespace : String) → PodEvent → Option ApiError
  pub config_maps_get : (namespace name : String) → Result ApiError (List (String × String))

-- `hc.Do(req)`: the status, or a transport error; `canceled` is the `select` of `FlapReadiness`.
pub record Http : Type 0 where
  pub post : List Post → Post → Result Error ℕ
  pub canceled_in : List Post → (window : ℤ) → Bool

module _ (clientset : Clientset) where
  unfoldable pub list_pods : String → String → Result Error (List PodRef)
  unfolding pod_ref
  list_pods ns selector = elim (clientset.pods_list ns selector) [
    | err e ↦ err (list_pods_failed ns selector (api e))
    | ok items ↦ ok (map pod_ref items)
  ]

  unfoldable pub delete_pod : String → String → Option Error
  delete_pod ns name = elim (clientset.pods_delete ns name) [
    | none ↦ none
    | some not_found ↦ none
    | some (failed why) ↦ some (delete_pod_failed ns name (api (failed why)))
  ]

  unfoldable pub emit_event : PodRef → String → Message → String → Option Error
  emit_event pod reason message event_type =
      let event : PodEvent = record {
        generate_name = "chaos-buddy-";
        namespace = pod.namespace;
        kind = "Pod";
        involved_namespace = pod.namespace;
        involved_name = pod.name;
        involved_uid = pod.uid;
        reason = reason;
        message = message;
        event_type = event_type;
        component = "chaos-buddy";
        count = 1;
      } in
      elim (clientset.events_create pod.namespace event) [
        | none ↦ none
        | some e ↦ some (emit_event_failed pod.namespace pod.name (api e))
      ]

  -- `ReadSwitch` from the ConfigMap's data on.
  unfoldable pub switch_value :
      String → String → Result ApiError (List (String × String)) → Bool × Option Error
  switch_value ns name (err e) = (false, some (read_switch_failed ns name (api e)))
  switch_value ns name (ok contents) = elim (lookup switch_key contents) [
    | none ↦ (false, some (no_switch_key ns name))
    | some raw ↦ elim (parse_bool raw) [
      | none ↦ (false, some (switch_not_bool ns name raw))
      | some enabled ↦ (enabled, none)
    ]
  ]

  unfoldable pub read_switch : String → String → Bool × Option Error
  unfolding switch_value
  read_switch ns name = switch_value ns name (clientset.config_maps_get ns name)

module _ (http : Http) where
  -- The error of a POST and the requests made by then, the latest first. Encoding the body and building
  -- the request, which fail before anything is sent, are part of `http.post`.
  unfoldable pub post_readiness : Post → List Post → Option Error × List Post
  post_readiness p sent = (
    elim (http.post sent p) [
      | err e ↦ some (post_failed p.ip e)
      | ok status ↦ if status == 200 then none else some (unexpected_status p.ip status)
    ],
    p ∷ sent,
  )

  abbrev pub readiness_post : PodRef → Bool → Post
  readiness_post pod ready = record {
    ip = pod.ip;
    port = pod_http_port;
    path = chaos_readiness_path;
    ready = ready;
  }

  -- The restoring POST.
  unfoldable pub restore : PodRef → List Post → Option Error × List Post
  unfolding post_readiness
  restore pod sent =
      let (e, sent') = post_readiness (readiness_post pod true) sent in
      (elim e [ none ↦ none | some why ↦ some (restore_failed pod.namespace pod.name why) ], sent')

  -- The `select` on the window and the context, after the first POST.
  unfoldable pub hold : PodRef → ℤ → List Post → Option Error × List Post
  unfolding restore
  hold pod window sent =
      if http.canceled_in sent window
      then (some (held_unready pod.namespace pod.name canceled), sent)
      else restore pod sent

  unfoldable pub set_unready : PodRef → ℤ → Option Error × List Post → Option Error × List Post
  unfolding hold
  set_unready pod window (some why, sent) =
      (some (set_unready_failed pod.namespace pod.name why), sent)
  set_unready pod window (none, sent) = hold pod window sent

  unfoldable pub flap_readiness : PodRef → ℤ → List Post → Option Error × List Post
  unfolding post_readiness set_unready
  flap_readiness pod window sent =
      if str_eq pod.ip ""
      then (some (no_ip pod.namespace pod.name), sent)
      else set_unready pod window (post_readiness (readiness_post pod false) sent)
