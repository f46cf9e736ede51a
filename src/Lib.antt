-- ===== src/Lib.antt =====
-- Verification of the VMware event sources for Knative.
--
-- The repository brings two event sources into Knative. Each has a custom resource
-- (pkg/apis/sources/v1alpha1), a controller that deploys a receive adapter for it
-- (pkg/reconciler), and the adapter itself, which reads events and sends them as cloud events
-- to a sink (pkg/horizon, pkg/vsphere). A third resource, VSphereBinding, injects the
-- credentials of a vCenter into the pod specs of its subject. A plugin for kn
-- (plugins/vsphere) creates, lists and deletes these resources and the credentials.
--
-- Files, and the code they model:
--
--   Horizon/Events.antt       pkg/horizon/types.go; reverse and removeEvent of pkg/horizon/adapter.go.
--                             The swap and the deletion by shifting are on lists with the indices of
--                             the code; a slice out of range is the outcome `panicked`.
--   Horizon/Adapter.antt      pkg/horizon/adapter.go. The variables of `run` are the record Adapter;
--                             one pass of its loop is `step`, over the signal that select received.
--                             sendEvents passes on a trace of the looks at the context, the sends and
--                             the acknowledged events.
--   Horizon/Api.antt          the interface Client of pkg/horizon/horizon.go.
--   Horizon/Rest.antt         pkg/horizon/horizon.go: login, refresh, GetEvents, Logout over a session
--                             with a log of the requests; `rest_client` gives them as a Client.
--   Horizon/Starting.antt     NewAdapter and Start of pkg/horizon/adapter.go.
--   Horizon/Rest/Opening.antt newHorizonClient and readSecretKey of pkg/horizon/horizon.go.
--   Vsphere/Checkpoint.antt   pkg/vsphere/checkpoint.go.
--   Vsphere/Events.antt       getEventDetails of pkg/vsphere/vsphere.go.
--   Vsphere/Adapter.antt      pkg/vsphere/adapter.go: run, readEvents, sendEvents,
--                             getBeginFromCheckpoint.
--   Vsphere/Client.antt       pkg/vsphere/client.go.
--   Vsphere/Starting.antt     NewAdapter and Start of pkg/vsphere/adapter.go.
--   Binding.antt              Do and Undo of pkg/apis/sources/v1alpha1/vspherebinding_lifecycle.go.
--   Binding/Status.antt       the marks of the status in the same file.
--   Sources.antt, Sources/    types, SetDefaults and Validate of pkg/apis/sources/v1alpha1.
--   Kube.antt                 the fields of the Kubernetes objects that the program reads or writes.
--   Reconcile/Sync.antt       podSpecSync and syncContainers of
--                             pkg/reconciler/horizonsource/deployment.go, with what is shared between
--                             caller and callee of a slice that is passed by value.
--   Reconcile/Conditions.antt horizonsource_lifecycle.go and vspheresource_lifecycle.go.
--   Reconcile/Horizon/Owned.antt
--                             FindOwned of pkg/reconciler/horizonsource/deployment.go.
--   Reconcile/Observability.antt
--                             UpdateFromLoggingConfigMap and UpdateFromMetricsConfigMap.
--   Reconcile/Resources.antt  pkg/reconciler/horizonsource/resources.
--   Reconcile/Vsphere.antt    pkg/reconciler/vspheresource/resources.
--   Reconcile/Vsphere/Controller.antt
--                             ReconcileKind of pkg/reconciler/vspheresource/vsphere.go and its steps,
--                             over a cluster with one store for each kind of object.
--   Reconcile/Horizon.antt    ReconcileKind, ReconcileServiceAccount and ReconcileDeployment of
--                             pkg/reconciler/horizonsource, over a cluster with its calls.
--   Plugin.antt, Plugin/      plugins/vsphere/pkg: GetExplicitOrDefaultNamespace of clients.go, and of
--                             command/ the checks and runs of create, delete and list for sources,
--                             bindings and credentials, and flags/flags.go. A command is its PreRunE,
--                             as a failure or none, and its RunE, as an outcome with the store.
--   Base.antt, Base/          shared helpers: tests, lists, signed integers, equality, texts.
--
-- The files below a component's file hold its lemmas and properties, its Tests the examples.
--
-- Conventions. Keys, times and durations are signed integers without a bound: times are
-- milliseconds (Horizon) or nanoseconds (vSphere), and no operation modelled here comes near the
-- limits of 64 bits, except that from seconds to nanoseconds in Reconcile/Vsphere.antt, which has
-- its wrap-around. An endless loop is a function over the list of signals that it receives, so a
-- statement over all lists is one over all finite runs; the loop of GetEvents is a recursion on the
-- rounds left, of which the code allows two, and needs no fuel. The digits of a number are produced
-- with the number plus one as fuel, which is never used up. What is not code of the
-- repository is a parameter: the HTTP server, JSON, the CloudEvents SDK, the key-value store, vCenter's
-- event history, the API server, apis.FieldError, apis.ConditionSet, Unicode's table of lower case.
-- Logging is left out.
--
-- What the API server stores for an object is not what was sent: it fills in defaults, and webhooks change
-- it, among them that of the VSphereBinding, which binds the adapter's own deployment. The theorems on
-- the VSphereSource controller leave open what it makes of an object (Reconcile/Vsphere/Controller/
-- Steps.antt, Admission). A request of the REST client stands in the log once for each time that the
-- library sends it. A save of the key-value store that fails is taken to have stored nothing, and
-- variables of equal name, which sort.Slice may swap, keep their order.
--
-- Vsphere/Adapter/Delivery.antt is the abstract view of the vSphere adapter: the events that were
-- acknowledged, and the one whose checkpoint is durable. The plugin's seconds of a duration, a
-- conversion through float64, are a parameter, of which the theorems use that whole seconds are exact.
--
-- Not modelled: the construction of the controllers with informers, the VSphereBinding controller, which
-- only wires a library, the set-up of cobra's commands, generated and vendored code.
pub mod Base
pub mod Kube
pub mod Horizon
pub mod Vsphere
pub mod Binding
pub mod Sources
pub mod Reconcile
pub mod Plugin
