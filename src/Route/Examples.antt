-- ===== src/Route/Examples.antt =====
-- Runs of the route's reconciler.
use gitops_operator.Base.{◌≡◌, refl, true, false, none, some, if◌then◌else◌}
use gitops_operator.Kube.{Kind, Object, View, Frame, same_name, Settles, IsRead, Issues}
use gitops_operator.Kube.Memory.{memory}
use gitops_operator.Route.{
  Settings, route_key, console_link_key, reconcile, new_console_link, is_console_link_disabled,
}
use gitops_operator.Route.Link.{href_of, link_in, reconcile-Settles, reconcile-IsRead}

abbrev settings : Settings
settings = record { getenv = λ _. ""; console_api_found = true; encoded_image = "aWNvbg==" }

abbrev route : Object Kind.route_kind
route = record {
  meta = record {
    name = route_key.name;
    namespace = route_key.namespace;
    labels = none;
    annotations = none;
    owner = none;
    deleting = false;
  };
  body = "argocd.example.com";
}

-- a cluster with the route, and no link yet
abbrev cluster : View
cluster Kind.route_kind n = if same_name route_key n then some route else none
cluster _ n = none

-- a cluster with the route and its link
abbrev linked_cluster : View
linked_cluster Kind.route_kind n = if same_name route_key n then some route else none
linked_cluster Kind.console_link_kind n =
    if same_name console_link_key n
    then some (new_console_link settings "https://argocd.example.com" "Cluster Argo CD")
    else none
linked_cluster _ n = none

reconcile-Settles_example : Settles memory (reconcile settings) cluster (λ _ w.
    (href_of (link_in (memory.view w)) ≡ some "https://argocd.example.com")
    × Frame Kind.console_link_kind console_link_key (memory.view cluster) (memory.view w))
unfolding is_console_link_disabled
reconcile-Settles_example = reconcile-Settles memory settings cluster refl

reconcile-IsRead_example : Issues memory IsRead (reconcile settings) linked_cluster
unfolding new_console_link is_console_link_disabled
reconcile-IsRead_example = reconcile-IsRead memory settings linked_cluster refl
