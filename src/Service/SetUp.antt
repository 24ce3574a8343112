-- ===== src/Service/SetUp.antt =====
-- SetupWithManager of controllers/gitopsservice_controller.go: the GitopsService that is created at the
-- start, and which events lead to a reconcile.
use gitops_operator.Base.{ℕ, Bool, true, not, ◌&&◌, ◌||◌, ◌==◌, ltb}
use gitops_operator.Kube.{NamespacedName, Kind, Program, after, create_object}
use gitops_operator.Service.Instance.{new_gitops_service, argocd_instance_name}
use gitops_operator.Service.Objects.{service_namespace}

-- The events of a watch: `updated` has the generations before and after, `deleted` whether the last
-- state is unknown.
pub data ServiceEvent : Type 0 where
  created generic : ServiceEvent
  updated : ℕ → ℕ → ServiceEvent
  deleted : Bool → ServiceEvent

unfoldable pub service_filter : ServiceEvent → Bool
service_filter (ServiceEvent.updated old new) = ltb old new || ltb new old
service_filter (ServiceEvent.deleted unknown) = not unknown
service_filter _ = true

unfoldable pub is_watched_namespace : NamespacedName → Bool
is_watched_namespace n = n.name == service_namespace

unfoldable pub is_watched_instance : NamespacedName → Bool
is_watched_instance n = n.name == argocd_instance_name && n.namespace == service_namespace

-- an error, AlreadyExists or another, is only logged
unfoldable pub create_gitops_service : Program (Unit {0})
unfolding after new_gitops_service
create_gitops_service =
    after (create_object Kind.gitops_service_kind new_gitops_service) (λ _. Program.done tt)
