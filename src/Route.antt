-- ===== src/Route.antt =====
-- controllers/argocd_controller.go: the reconciler that keeps the console link to the default Argo CD
-- instance, and the filter on its events.
pub mod Link
pub mod Examples
use gitops_operator.Base.{String, Bool, false, not, ◌&&◌, none, if◌then◌else◌, ◌==◌, ◌⧺◌, to_lower}
use gitops_operator.Kube.{
  NamespacedName, Kind, Object, key_of, is_not_found, Result, ok, err, after, Io, pure, throw,
  get_object, create_object, update_object, delete_object,
}

abbrev pub argocd_ns : String
argocd_ns = "openshift-gitops"

abbrev pub console_link_name : String
console_link_name = "argocd"

abbrev pub argocd_route_name : String
argocd_route_name = "openshift-gitops-server"

abbrev pub route_key : NamespacedName
route_key = record { name = argocd_route_name; namespace = argocd_ns }

abbrev pub console_link_key : NamespacedName
console_link_key = record { name = console_link_name; namespace = "" }

-- What the process has when a request is handled: its environment, whether the console API was
-- found, and the icon's bytes in base64.
pub record Settings : Type 0 where
  pub getenv : String → String
  pub console_api_found : Bool
  pub encoded_image : String

unfoldable pub image_data_url : String → String
image_data_url encoded = "data:image/png;base64," ⧺ encoded

unfoldable pub is_console_link_disabled : Settings → Bool
is_console_link_disabled c = to_lower (c.getenv "DISABLE_DEFAULT_ARGOCD_CONSOLELINK") == "true"

unfoldable pub filter_argocd_route : String → String → Bool
filter_argocd_route namespace name = namespace == argocd_ns && argocd_route_name == name

-- The metadata that an event carries.
pub record Version : Type 0 where
  pub namespace : String
  pub name : String
  pub resource_version : String

pub data Event : Type 0 where
  created deleted : Version → Event
  updated : Version → Version → Event

-- the old object, then the new one
unfoldable pub filter_predicate : (String → String → Bool) → Event → Bool
filter_predicate assert (created o) = assert o.namespace o.name
filter_predicate assert (deleted o) = assert o.namespace o.name
filter_predicate assert (updated old new) =
    assert new.namespace new.name && not (new.resource_version == old.resource_version)

unfoldable pub new_console_link : Settings → String → String → Object Kind.console_link_kind
unfolding image_data_url
new_console_link c href text = record {
  meta = record {
    name = console_link_name;
    namespace = "";
    labels = none;
    annotations = none;
    owner = none;
    deleting = false;
  };
  body = record {
    text = text;
    href = href;
    location = "ApplicationMenu";
    section = "OpenShift GitOps";
    image_url = image_data_url c.encoded_image;
  };
}

-- after the Get of the link
abbrev delete_found : Result (Object Kind.console_link_kind) → Io (Unit {0})
delete_found (Result.ok _) = delete_object Kind.console_link_kind console_link_key
delete_found (Result.err e) = if is_not_found e then pure tt else throw e

unfoldable pub delete_console_link_if_present : Io (Unit {0})
unfolding after
delete_console_link_if_present =
    after (get_object Kind.console_link_kind console_link_key) delete_found

abbrev update_href :
    String → Object Kind.console_link_kind → Result (Object Kind.console_link_kind) → Io (Unit {0})
update_href url link (Result.ok found) =
    if not (found.body.href == url)
    then update_object Kind.console_link_kind
        (record { meta = found.meta; body = record found.body { href = url } })
    else pure tt
update_href url link (Result.err e) =
    if is_not_found e then create_object Kind.console_link_kind link else throw e

-- the handler from the point where the route was read
abbrev with_route : Settings → Result (Object Kind.route_kind) → Io (Unit {0})
with_route c (Result.ok route) =
    let url = "https://" ⧺ route.body in
    let link = new_console_link c url "Cluster Argo CD" in
    if is_console_link_disabled c
    then delete_console_link_if_present
    else after (get_object Kind.console_link_kind (key_of link.meta)) (update_href url link)
with_route c (Result.err e) = if is_not_found e then delete_console_link_if_present else throw e

-- Reconcile; the request is only logged
unfoldable pub reconcile : Settings → Io (Unit {0})
unfolding after delete_console_link_if_present new_console_link
reconcile c =
    if not c.console_api_found
    then pure tt
    else after (get_object Kind.route_kind route_key) (with_route c)
