-- ===== src/Metrics/Dashboards.antt =====
-- What the installation of the dashboards and the operator's own service monitor do.
use gitops_operator.Base.{
  String, ◌≡◌, refl, sym, ap, ◌∙◌, subst, inl, inr, Bool, true, false, Option, none, some, List, [],
  ◌∷◌, if◌then◌else◌, Bool-cases, ◌==◌, lookup, text_of, same_text?, same_text?-eq,
}
use gitops_operator.Kube.{
  NamespacedName, TlsConfig, Endpoint, Kind, Object, key_of, Error, is_not_found, Result, Program,
  after, pure, Server, View, Frame, Unchanged, Ensures, OrFault, Settles, Ensures-mono,
  Ensures-after, Ensures-get, Protected, Avoids, Advances, Advances-refl, Advances-trans,
  Ensures-update_any, Ensures-create_any, Settles-update,
}
use gitops_operator.Metrics.Objects.{dashboard_namespace}
use gitops_operator.Metrics.{
  Settings, DirEntry, content, new_dashboard_config_map, process_entry, install_all, set_tls_name,
  with_namespace_file, install_dashboard, process_dashboard, process_entries, reconcile_dashboards,
  set_server_name, with_operator_monitor, operator_monitor_key, desired_server_name, dashboards_in,
}

-- No ConfigMap is protected.
abbrev pub NoConfigMaps : Protected → Type 0
NoConfigMaps prot = (n : NamespacedName) → Avoids prot Kind.config_map_kind n

-- The first endpoint of a monitor has a TLS configuration.
abbrev pub HasTls : List Endpoint → Type 0
HasTls [] = ⊥
HasTls (e ∷ _) = (t : TlsConfig) × (e.tls_config ≡ some t)

abbrev pub server_name_of : List Endpoint → Option String
server_name_of [] = none
server_name_of (e ∷ _) = elim e.tls_config [ none ↦ none | some t ↦ t.server_name ]

module _ (s : Server) (prot : Protected) (free : NoConfigMaps prot) (c : Settings) where
  open s use {World, view}

  install_dashboard-Ensures :
      (v : View) (file : String) (d : Object Kind.config_map_kind)
      (r : Result (Object Kind.config_map_kind)) (w : World)
      → Unchanged v (view w)
      → Ensures s (install_dashboard file d r) w (λ _ w'. Advances prot v (view w'))
  unfolding after
  install_dashboard-Ensures v file d (Result.ok x) w u =
      elim (Bool-cases (text_of (lookup x.body file) == text_of (lookup d.body file))) [
        | inl same ↦ rw same (Advances-refl u)
        | inr other ↦ rw other (
            Ensures-update_any s prot Kind.config_map_kind d (λ _. Program.done tt) w
              (λ _ w'. Advances prot v (view w')) (free _)
              (λ r w' a. Advances-trans (Advances-refl u) a))
      ]
  install_dashboard-Ensures v file d (Result.err e) w u = elim (Bool-cases (is_not_found e)) [
    | inl gone ↦ rw gone (
        Ensures-create_any s prot Kind.config_map_kind d (λ _. Program.done tt) w
          (λ _ w'. Advances prot v (view w')) (free _)
          (λ r w' a. Advances-trans (Advances-refl u) a))
    | inr other ↦ rw other (Advances-refl u)
  ]

  process_dashboard-Ensures :
      (file : String) (d : Result (Object Kind.config_map_kind)) (w : World)
      → Ensures s (process_dashboard file d) w (λ _ w'. Advances prot (view w) (view w'))
  unfolding after
  process_dashboard-Ensures file (Result.err e) w = Advances-refl (λ l m. refl)
  process_dashboard-Ensures file (Result.ok d) w =
      let n : NamespacedName = record { name = d.meta.name; namespace = dashboard_namespace } in
      Ensures-get s (λ _ w'. Advances prot (view w) (view w')) Kind.config_map_kind n
        (install_dashboard file d) w
        (λ x w' _ u. install_dashboard-Ensures (view w) file d (Result.ok x) w' u)
        (λ w' _ u. install_dashboard-Ensures (view w) file d (Result.err Error.not_found) w' u)
        (λ e w' _ u _. install_dashboard-Ensures (view w) file d (Result.err e) w' u)

  process_entry-Ensures :
      (entry : DirEntry) (w : World)
      → Ensures s (process_entry c entry) w (λ _ w'. Advances prot (view w) (view w'))
  process_entry-Ensures entry w = go entry.is_dir
    where
      d : Result (Object Kind.config_map_kind)
      d = new_dashboard_config_map c entry.name dashboard_namespace

      go :
          (b : Bool)
          → Ensures s
              (if b then Program.done tt else process_dashboard entry.name d)
              w
              (λ _ w'. Advances prot (view w) (view w'))
      go true = Advances-refl (λ l m. refl)
      go false = process_dashboard-Ensures entry.name d w

  process_entries-Ensures :
      (entries : List DirEntry) (w : World)
      → Ensures s (process_entries c entries) w (λ _ w'. Advances prot (view w) (view w'))
  unfolding process_entries
  process_entries-Ensures [] w = Advances-refl (λ l m. refl)
  process_entries-Ensures (entry ∷ entries) w =
      Ensures-after s (process_entry c entry) (λ _. process_entries c entries) w
        (λ _ w'. Advances prot (view w) (view w'))
        (Ensures-mono s (process_entry c entry) w (λ _ w₁. Advances prot (view w) (view w₁))
          (λ _ w₁.
            Ensures s (process_entries c entries) w₁ (λ _ w'. Advances prot (view w) (view w')))
          (process_entry-Ensures entry w)
          (λ _ w₁ a.
            Ensures-mono s (process_entries c entries) w₁
              (λ _ w'. Advances prot (view w₁) (view w')) (λ _ w'. Advances prot (view w) (view w'))
              (process_entries-Ensures entries w₁) (λ _ w' b. Advances-trans a b)))

  -- Installing the dashboards loses no object and touches only ConfigMaps, whatever fails.
  pub reconcile_dashboards-Settles :
      (w : World) (entries : List DirEntry)
      → c.dashboard_entries ≡ Result.ok entries
      → Settles s (reconcile_dashboards c) w (λ _ w'. Advances prot (view w) (view w'))
  unfolding reconcile_dashboards
  reconcile_dashboards-Settles w entries h =
      Ensures-get s (OrFault s (λ _ w'. Advances prot (view w) (view w'))) Kind.namespace_kind
        (record { name = dashboard_namespace; namespace = "" }) (dashboards_in c) w
        (λ x w' _ u.
          subst (λ r. Settles s (install_all c r) w' (λ _ w''. Advances prot (view w) (view w'')))
            (sym h)
            (Ensures-after s (process_entries c entries) (λ _. pure tt) w'
              (OrFault s (λ _ w''. Advances prot (view w) (view w'')))
              (Ensures-mono s (process_entries c entries) w'
                (λ _ w''. Advances prot (view w') (view w''))
                (λ _ w''. Advances prot (view w) (view w'')) (process_entries-Ensures entries w')
                (λ _ w'' a. Advances-trans (Advances-refl u) a))))
        (λ w' _ u. Advances-refl u) (λ e w' _ u h. Advances-refl u)

-- What the operator's own monitor becomes: its first endpoint names the desired server, and its
-- metadata stays. No monitor is created.
abbrev pub NamedFrom :
    String
    → Option (Object Kind.service_monitor_kind)
    → Option (Object Kind.service_monitor_kind)
    → Type 0
NamedFrom namespace none o = o ≡ none
NamedFrom namespace (some m) o =
    (m' : Object Kind.service_monitor_kind) × (o ≡ some m')
    × (m'.meta ≡ m.meta)
    × (server_name_of m'.body.endpoints ≡ some (desired_server_name namespace))

abbrev pub monitor_in : String → View → Option (Object Kind.service_monitor_kind)
monitor_in namespace v = v Kind.service_monitor_kind (operator_monitor_key namespace)

-- Nothing else is touched.
abbrev pub Named : String → View → View → Type 0
Named namespace v v' =
    NamedFrom namespace (monitor_in namespace v) (monitor_in namespace v')
    × Frame Kind.service_monitor_kind (operator_monitor_key namespace) v v'

abbrev pub MonitorHasTls : Option (Object Kind.service_monitor_kind) → Type 0
MonitorHasTls none = Unit {0}
MonitorHasTls (some m) = HasTls m.body.endpoints

module _ (s : Server) (namespace : String) where
  open s use {World, view}

  set_tls_name-Settles :
      (v : View) (w : World) (m : Object Kind.service_monitor_kind) (endpoint : Endpoint)
      (rest : List Endpoint) (tls : TlsConfig)
      → key_of m.meta ≡ operator_monitor_key namespace
      → monitor_in namespace v ≡ some m
      → Unchanged v (view w)
      → (same_text? tls.server_name (some (desired_server_name namespace)) ≡ true
          → server_name_of m.body.endpoints ≡ some (desired_server_name namespace))
      → Settles s
          (set_tls_name (desired_server_name namespace) m endpoint rest (some tls))
          w
          (λ _ w'.
            NamedFrom namespace (some m) (monitor_in namespace (view w'))
            × Frame Kind.service_monitor_kind (operator_monitor_key namespace) v (view w'))
  set_tls_name-Settles v w m endpoint rest tls key e u fits =
      elim (Bool-cases (same_text? tls.server_name (some (desired_server_name namespace)))) [
        | inl same ↦ rw same (
            (
              (
                m,
                u Kind.service_monitor_kind (operator_monitor_key namespace) ∙ e,
                refl,
                fits same,
              ),
              λ l k _. u l k,
            ))
        | inr other ↦ rw other (
            Settles-update s Kind.service_monitor_kind (operator_monitor_key namespace) m
              (record {
                meta = m.meta;
                body = record m.body {
                  endpoints =
                      record endpoint {
                        tls_config =
                            some (record { server_name = some (desired_server_name namespace) });
                      }
                      ∷ rest;
                };
              })
              w
              (λ w'.
                NamedFrom namespace (some m) (monitor_in namespace (view w'))
                × Frame Kind.service_monitor_kind (operator_monitor_key namespace) v (view w'))
              key (u Kind.service_monitor_kind (operator_monitor_key namespace) ∙ e)
              (λ w' n f. ((_, n, refl, refl), λ l k d. f l k d ∙ u l k)))
      ]

  set_server_name-Settles :
      (v : View) (w : World) (m : Object Kind.service_monitor_kind) (endpoints : List Endpoint)
      → m.body.endpoints ≡ endpoints
      → HasTls endpoints
      → key_of m.meta ≡ operator_monitor_key namespace
      → monitor_in namespace v ≡ some m
      → Unchanged v (view w)
      → Settles s (set_server_name (desired_server_name namespace) m endpoints) w (λ _ w'.
        NamedFrom namespace (some m) (monitor_in namespace (view w'))
        × Frame Kind.service_monitor_kind (operator_monitor_key namespace) v (view w'))
  set_server_name-Settles v w m [] p h key e u = absurd h
  set_server_name-Settles v w m (endpoint ∷ rest) p (tls, h) key e u =
      subst
        (λ o. Settles s (set_tls_name (desired_server_name namespace) m endpoint rest o) w (λ _ w'.
          NamedFrom namespace (some m) (monitor_in namespace (view w'))
          × Frame Kind.service_monitor_kind (operator_monitor_key namespace) v (view w')))
        (sym h)
        (set_tls_name-Settles v w m endpoint rest tls key e u (λ same.
          ap server_name_of p
          ∙ ap (λ o. elim o [ none ↦ none | some t ↦ t.server_name ]) h
          ∙ same_text?-eq tls.server_name (some (desired_server_name namespace)) same))

  -- The step for a file that holds the namespace, or for none.
  pub with_namespace_file-Settles :
      (w : World)
      → MonitorHasTls (monitor_in namespace (view w))
      → Settles s
          (with_namespace_file (content namespace))
          w
          (λ _ w'. Named namespace (view w) (view w'))
  unfolding is_not_found after
  with_namespace_file-Settles w tls =
      Ensures-get s (OrFault s (λ _ w'. Named namespace (view w) (view w')))
        Kind.service_monitor_kind (operator_monitor_key namespace)
        (with_operator_monitor (desired_server_name namespace)) w
        (λ m w' e u.
          subst
            (λ o.
              Settles s (set_server_name (desired_server_name namespace) m m.body.endpoints) w'
                (λ _ w''.
                  NamedFrom namespace o (monitor_in namespace (view w''))
                  × Frame Kind.service_monitor_kind (operator_monitor_key namespace) (view w)
                      (view w'')))
            (sym e)
            (set_server_name-Settles (view w) w' m m.body.endpoints refl (subst MonitorHasTls e tls)
              (s.stored_key Kind.service_monitor_kind (operator_monitor_key namespace) w m e) e u))
        (λ w' e u. (
          subst (λ o. NamedFrom namespace o (monitor_in namespace (view w'))) (sym e)
              (u Kind.service_monitor_kind (operator_monitor_key namespace) ∙ e),
          λ l k _. u l k,
        ))
        (λ e w' n u f. rw n f)
