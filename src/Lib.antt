-- ===== src/Lib.antt =====
-- k8s-buddy: a Kubernetes teaching project of three Go programs. buddy-api serves HTTP and reports how it
-- feels, plant-operator reconciles Plants (custom resources) into Deployments and their companions, and
-- chaos-buddy now and then deletes a pod or flaps its readiness.
--
-- Files and sources:
-- - Common: shared notation and lemmas. Common/Bools, Common/Lists and Common/Int are tests, lists and
--   signed integers over the native numbers; Common/Errors is `(value, error)`; Common/Dict a Go map;
--   Common/Texts parts of `strings`; Common/Env the readers of environment variables; Common/Float the
--   interface of float64.
-- - Chaos: internal/chaos and cmd/chaos-buddy. Chaos/Engine is engine.go (`Decide` is `decide`),
--   Chaos/Execute is `Execute` over the `PodClient` interface of kube.go, Chaos/Client the `Client` that
--   implements it, Chaos/Config `loadConfig` and Chaos/Loop `runLoop` with its metrics.
-- - Api: internal/api, internal/telemetry/metrics.go and cmd/buddy-api. Api/Window is window.go,
--   Api/Metrics metrics.go, Api/Recorder the status recorder of middleware.go, Api/Server server.go with
--   the handlers of handlers.go, Api/Server/Routes `Handler` with the middleware chain, Api/Config
--   `loadConfig`, and Api/Lifecycle `parseLogLevel`, `RunHealthRefresher` and `gracefulShutdown`.
-- - Mood: internal/mood/mood.go.
-- - Plant: the types of api/v1alpha1/plant_types.go; Plant/Webhook is plant_webhook.go.
-- - Controller: internal/controller. Controller/Status is status.go; Controller/Resources is resources.go
--   (Workload `DeploymentFor`, Companions the ServiceAccount, Service, ConfigMap and PodDisruptionBudget,
--   Network the NetworkPolicy and ServiceMonitor); the others are parts of plant_controller.go: Apply is
--   `applyChild`, Merge the merges of labels and containers, Mutate the mutate functions with the table of
--   children, Setup the constants and what a reconciler is given, Children `reconcileChildren`, Writes
--   `markDegraded` and `reconcileStatus`, Reconcile `Reconcile`.
-- - Operator: cmd/plant-operator. Operator/Flags is `envOrDefault` and `parseAllowedImageRegistries`,
--   Operator/Bundle `mergeCABundle`, Operator/Patch `patchWebhookCABundles`, Operator/Serving
--   `generateWebhookServingCertificate`, and Operator/Bootstrap `main` up to the patched bundles.
-- The Tests modules run the definitions on concrete inputs.
--
-- How the parts meet: the operator's status takes its mood from Mood; buddy-api takes the same score from
-- its work window; the chaos client posts to the readiness route of Api/Server/Routes; the webhook's floor
-- of the watering interval is that of the reconciler's requeue.
--
-- State and errors. A destructive component threads its state: chaos-buddy's is the history of calls, to
-- which the client's answers may refer in any way; the server's is a record; the operator's is a world `W`
-- that the API server's operations act on. An error is a constructor that keeps what its message formats.
-- A panic is a flag or `none`. Concurrency: each mutex or atomic makes its operation one step, and
-- requests are taken one after the other.
--
-- Arguments of the model stand for code that is not in the repository: the API server and the
-- clientset, net/http's ServeMux and client, promhttp, meta.SetStatusCondition, DeepEqual, the parsers
-- of flags, numbers, durations and selectors, the random source and the clock, SetControllerReference,
-- the PEM coder, the certificate calls, sort.Slice and the accessors of unstructured objects. What is
-- asked of them is a record of laws next to its use: `IsFloat` (Common/Float), `SetsCondition`
-- (Controller/Status/Settled), `IsControllerReference` (Controller/Mutate), `IsUnstructured`
-- (Controller/Resources/Network), `SortsByIssue` (Operator/Bundle/Retained) and `IsPem`
-- (Operator/Bundle/Again). Common/Float/Whole and the Tests modules meet them.
--
-- Bounds. Durations and counts are integers without wrap-around, which the source's values do not
-- reach, but for the span of the random delay on int64 and the subtraction on int32 in
-- PodDisruptionBudgetFor, which are written out. The status update has fuel 5, the number of attempts of
-- `retry.DefaultRetry`; running out of it is the conflict that the source returns. The reading of PEM
-- blocks has fuel for each byte and one more, which is enough where a decoded block leaves a shorter
-- text. The patch of a bundle has the ten steps of its backoff, of which the cap of its delay leaves
-- seven attempts. The percentile's rank is computed in whole numbers, which agrees with the source's
-- float64 up to the window's 100 entries.
--
-- Not modelled: log output; the processes of buddy-api and chaos-buddy around their servers and loop
-- (signals and listeners); the manager of plant-operator and its cache options, which are
-- configuration of controller-runtime; registration code and generated deep copies.
pub mod Common
pub mod Chaos
pub mod Api
pub mod Mood
pub mod Plant
pub mod Controller
pub mod Operator
