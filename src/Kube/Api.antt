-- ===== src/Kube/Api.antt =====
-- The calls of a controller on the API server, and a controller's code as a program of such calls.
use gitops_operator.Base.{String, Bool, true, false, StringMap, List}
use gitops_operator.Kube.Objects.{
  NamespacedName, ObjectMeta, PolicyRule, Binding, MonitorSpec, RuleGroup, DeploymentSpec,
  ServiceSpec, ConsoleLinkSpec, ConsolePluginSpec,
}
use gitops_operator.Kube.Custom.{GitopsServiceSpec, ArgoCdSpec}

pub data Kind : Type 0 where
  namespace_kind role_kind role_binding_kind service_monitor_kind prometheus_rule_kind : Kind
  config_map_kind argo_cd_kind gitops_service_kind deployment_kind service_kind : Kind
  service_account_kind cluster_role_kind cluster_role_binding_kind route_kind : Kind
  console_link_kind console_plugin_kind resource_quota_kind cluster_version_kind : Kind

unfoldable pub Kind-discrete : Discrete Kind
Kind-discrete = hlevel

-- What an object of each kind holds beside its metadata: the host of a Route, the desired version
-- of a ClusterVersion, the data of a ConfigMap, the rules of a Role.
abbrev pub Body : Kind → Type 0
Body Kind.role_kind = List PolicyRule
Body Kind.cluster_role_kind = List PolicyRule
Body Kind.role_binding_kind = Binding
Body Kind.cluster_role_binding_kind = Binding
Body Kind.service_monitor_kind = MonitorSpec
Body Kind.prometheus_rule_kind = List RuleGroup
Body Kind.config_map_kind = StringMap
Body Kind.argo_cd_kind = ArgoCdSpec
Body Kind.gitops_service_kind = GitopsServiceSpec
Body Kind.deployment_kind = DeploymentSpec
Body Kind.service_kind = ServiceSpec
Body Kind.route_kind = String
Body Kind.console_link_kind = ConsoleLinkSpec
Body Kind.console_plugin_kind = ConsolePluginSpec
Body Kind.cluster_version_kind = String
Body _ = Unit

pub record Object (k : Kind) : Type 0 where
  pub meta : ObjectMeta
  pub body : Body k

abbrev pub key_of : ObjectMeta → NamespacedName
key_of m = record { name = m.name; namespace = m.namespace }

-- Errors. `wrapped` is fmt.Errorf with %w, `formatted` with %v, which keeps only the text.
pub data Error : Type 0 where
  not_found already_exists : Error
  failure : String → Error
  wrapped formatted : String → Error → Error

-- errors.IsNotFound and errors.IsAlreadyExists look through `wrapped`
unfoldable pub is_not_found : Error → Bool
is_not_found Error.not_found = true
is_not_found (Error.wrapped _ e) = is_not_found e
is_not_found _ = false

unfoldable pub is_already_exists : Error → Bool
is_already_exists Error.already_exists = true
is_already_exists (Error.wrapped _ e) = is_already_exists e
is_already_exists _ = false

pub data Result (A : Type 0) : Type 0 where
  ok : A → Result A
  err : Error → Result A

-- client.Client
pub data Call : Type 0 where
  get : Kind → NamespacedName → Call
  create update : (k : Kind) → Object k → Call
  delete : Kind → NamespacedName → Call

abbrev pub Reply : Call → Type 0
Reply (Call.get k n) = Result (Object k)
Reply _ = Result (Unit {0})

-- `crash` is a run-time panic: a nil pointer, or an index out of range.
pub data Program (A : Type 0) : Type 0 where
  done : A → Program A
  crash : Program A
  call : (c : Call) → (Reply c → Program A) → Program A

-- `e` first, whatever it gives
unfoldable pub after : {A B : Type 0} → Program A → (A → Program B) → Program B
after (Program.done a) f = f a
after Program.crash f = Program.crash
after (Program.call c k) f = Program.call c (λ r. after (k r) f)

-- A function that returns an error beside its value.
abbrev pub Io : Type 0 → Type 0
Io A = Program (Result A)

abbrev pub pure : {A : Type 0} → A → Io A
pure a = Program.done (Result.ok a)

abbrev pub throw : {A : Type 0} → Error → Io A
throw e = Program.done (Result.err e)

abbrev pub lift : {A : Type 0} → Result A → Io A
lift r = Program.done r

abbrev pub or_return : {A B : Type 0} → (A → Io B) → Result A → Io B
or_return f (Result.ok a) = f a
or_return f (Result.err e) = throw e

-- `if err != nil { return err }`
infixl 5 ◌>>=◌ ◌>>◌
unfoldable pub ◌>>=◌ : {A B : Type 0} → Io A → (A → Io B) → Io B
unfolding after
◌>>=◌ m f = after m (or_return f)

abbrev pub ◌>>◌ : {B : Type 0} → Io (Unit {0}) → Io B → Io B
m >> n = m >>= λ _. n

-- the calls by themselves
abbrev pub perform : (c : Call) → Program (Reply c)
perform c = Program.call c Program.done

abbrev pub get_object : (k : Kind) → NamespacedName → Io (Object k)
get_object k n = perform (Call.get k n)

abbrev pub create_object : (k : Kind) → Object k → Io (Unit {0})
create_object k o = perform (Call.create k o)

abbrev pub update_object : (k : Kind) → Object k → Io (Unit {0})
update_object k o = perform (Call.update k o)

abbrev pub delete_object : Kind → NamespacedName → Io (Unit {0})
delete_object k n = perform (Call.delete k n)
