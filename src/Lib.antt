-- ===== src/Lib.antt =====
-- The controllers of the GitOps operator, as programs of calls on the Kubernetes API server.
--
-- Kube holds the Kubernetes side: the object types with the fields that the controllers set or read
-- (Kube/Objects, Kube/Custom), the client's calls and a controller's code as a program of them
-- (Kube/Api), what is relied on of the server as the interface `Server` (Kube/Serving), and rules to
-- reason on the run of a program (Kube/Rules, Kube/Effects, Kube/Calls). The server may fail any call
-- for a reason of its own, and then a write may or may not have happened; between two calls of a
-- program nobody else writes. `Settles s p w Q` says that the program `p`, run against `s` from the
-- world `w`, does not panic and returns either a value and a world that satisfy `Q`, or an error that
-- a fault of the server caused. A Create or an Update keeps the object as it was sent; the
-- fields that a server fills in of the plugin's Deployment are dealt with in Plugin/Stored and Plugin/Reordering. A Delete
-- marks an ArgoCD, which has a finalizer, and removes any other object. Kube/Memory is a server that meets the interface. Kube/Idioms holds
-- the shapes in which the controllers treat an object. Programs are finite, so no fuel is needed.
--
-- Service models controllers/gitopsservice_controller.go: the metadata of namespaces
-- (Service/Namespaces), the backend's objects, reconcile and removal (Service/Objects, Service/Backend),
-- the default instance's reconcile and removal and the removal of KAM's objects (Service/Default,
-- Service/Instance), the Reconcile that composes these steps with those of Plugin
-- (Service/Reconcile), and what SetupWithManager creates and filters (Service/SetUp). DefaultCr models
-- controllers/argocd/argocd.go, the resource of the default instance.
--
-- Route models controllers/argocd_controller.go (the console link), Metrics models
-- controllers/argocd_metrics_controller.go (monitoring of an instance), and Cluster models
-- controllers/util/util.go (API groups, version, proxy, seccomp).
--
-- Plugin models controllers/consoleplugin.go: the plugin's objects and httpd.conf (Plugin/Objects,
-- Plugin/Httpd), how their lists are sorted and compared (Plugin/Sorting, Plugin/Equality), the
-- reconcile (Plugin/Reconcile) and the removal of the objects of earlier versions (Plugin/Old).
-- Base/Sorting has sort.Slice as the insertion sort that it is on at most 12 elements; no list of the
-- plugin that the operator builds is longer, and longer lists of a user's Deployment are outside the
-- model. Kube/Idioms/Stable has the sequences of objects that are created or amended, and that they
-- come to rest. Hook models controllers/argocd/openshift/openshift.go, the changes that OpenShift
-- needs of the objects that argocd-operator builds. Start models cmd/main.go: which steps the process
-- takes before its manager runs, where the first step that fails ends it.
--
-- Not modelled: argocd-operator/, the internal copy of another project, whose functions are
-- parameters; of cmd/main.go the flags, the log level and the options of the manager; logging; and the
-- registration of the reconcilers with controller-runtime.
pub mod Base
pub mod Kube
pub mod Cluster
pub mod DefaultCr
pub mod Service
pub mod Route
pub mod Metrics
pub mod Plugin
pub mod Hook
pub mod Start
