-- ===== src/Route/Link.antt =====
-- What a reconcile of the route leaves.
use gitops_operator.Base.{
  String, ◌≡◌, refl, sym, ap, ◌∙◌, subst, inl, inr, true, not, Option, none, some, if◌then◌else◌,
  Bool-cases, ◌==◌, ◌⧺◌, ==-true, ==-of_eq,
}
use gitops_operator.Kube.{
  Kind, Object, is_not_found, Result, Call, Program, after, pure, get_object, Server, View, Frame,
  Unchanged, OrFault, Settles, Ensures-get, Ensures-create, Ensures-delete, IsRead, Issues,
  Issues-get, Settles-update,
}
use mathlib.Core.Option.{some-injective}
use gitops_operator.Route.{
  Settings, reconcile, route_key, console_link_key, is_console_link_disabled, new_console_link,
  delete_console_link_if_present, delete_found, with_route, update_href,
}

none≢text : {x : String} → ◌≡◌ {A = Option String} none (some x) → ⊥
none≢text e = cc

none≢some : {x : Object Kind.console_link_kind} → none ≡ some x → ⊥
none≢some e = cc

abbrev pub href_of : Option (Object Kind.console_link_kind) → Option String
href_of none = none
href_of (some l) = some l.body.href

-- The address that the console should link to: that of the route, unless the link is disabled.
abbrev pub desired_href : Settings → Option (Object Kind.route_kind) → Option String
desired_href c none = none
desired_href c (some route) =
    if is_console_link_disabled c then none else some ("https://" ⧺ route.body)

abbrev pub link_in : View → Option (Object Kind.console_link_kind)
link_in v = v Kind.console_link_kind console_link_key

module _ (s : Server) where
  open s use {World, view}

  abbrev Linked : Option String → View → View → Type 0
  Linked href v v' =
      (href_of (link_in v') ≡ href) × Frame Kind.console_link_kind console_link_key v v'

  delete-Settles :
      (v : View) (w : World)
      → Unchanged v (view w)
      → Settles s delete_console_link_if_present w (λ _ w'. Linked none v (view w'))
  unfolding delete_console_link_if_present is_not_found
  delete-Settles v w u =
      Ensures-get s (OrFault s (λ _ w'. Linked none v (view w'))) Kind.console_link_kind
        console_link_key delete_found w
        (λ x w' e u₁.
          Ensures-delete s (OrFault s (λ _ w'. Linked none v (view w'))) Kind.console_link_kind
            console_link_key Program.done w' refl
            (λ w'' d f. (rw d refl, λ l m h. f l m h ∙ u₁ l m ∙ u l m))
            (λ w'' b d f.
              absurd (none≢some (sym b ∙ u₁ Kind.console_link_kind console_link_key ∙ e)))
            (λ e w'' n d f h. h))
        (λ w' e u₁.
          (rw (u₁ Kind.console_link_kind console_link_key ∙ e) refl, λ l m _. u₁ l m ∙ u l m))
        (λ e w' n u₁ f. rw n f)

  link-Settles :
      (v : View) (w : World) (c : Settings) (url : String)
      → Unchanged v (view w)
      → Settles s
          (after
            (get_object Kind.console_link_kind console_link_key)
            (update_href url (new_console_link c url "Cluster Argo CD")))
          w
          (λ _ w'. Linked (some url) v (view w'))
  unfolding is_not_found after new_console_link
  link-Settles v w c url u =
      Ensures-get s (OrFault s (λ _ w'. Linked (some url) v (view w'))) Kind.console_link_kind
        console_link_key (update_href url (new_console_link c url "Cluster Argo CD")) w
        (λ x w' e u₁. elim (Bool-cases (x.body.href == url)) [
          | inl same ↦ rw same (
            rw (u₁ Kind.console_link_kind console_link_key ∙ e) (ap some (==-true _ _ same)),
            λ l m _. u₁ l m ∙ u l m,
          )
          | inr other ↦ rw other (
              Settles-update s Kind.console_link_kind console_link_key x
                (record { meta = x.meta; body = record x.body { href = url } }) w'
                (λ w''. Linked (some url) v (view w''))
                (s.stored_key Kind.console_link_kind console_link_key w x e)
                (u₁ Kind.console_link_kind console_link_key ∙ e)
                (λ w'' h₀ h₁. (rw h₀ refl, λ l m d. h₁ l m d ∙ u₁ l m ∙ u l m)))
        ])
        (λ w' e u₁.
          Ensures-create s (OrFault s (λ _ w'. Linked (some url) v (view w')))
            Kind.console_link_kind (new_console_link c url "Cluster Argo CD") Program.done w'
            (u₁ Kind.console_link_kind console_link_key ∙ e)
            (λ w'' n f. (rw n refl, λ l m h. f l m h ∙ u₁ l m ∙ u l m)) (λ e w'' _ _ _ h. h))
        (λ e w' n u₁ f. rw n f)

  with_route-Settles :
      (v : View) (w : World) (c : Settings) (r : Object Kind.route_kind)
      → Unchanged v (view w)
      → Settles s
          (with_route c (Result.ok r))
          w
          (λ _ w'. Linked (desired_href c (some r)) v (view w'))
  unfolding new_console_link
  with_route-Settles v w c r u = elim (Bool-cases (is_console_link_disabled c)) [
    | inl disabled ↦ rw disabled (delete-Settles v w u)
    | inr enabled ↦ rw enabled (link-Settles v w c ("https://" ⧺ r.body) u)
  ]

  -- Where the console API was found, a reconcile that meets no fault of the server returns without an
  -- error and leaves the console link with the address of the route, or no link if there is no route
  -- or the link is disabled; every other object is as it was.
  pub reconcile-Settles :
      (c : Settings) (w : World)
      → c.console_api_found ≡ true
      → Settles s (reconcile c) w (λ _ w'.
        (href_of (link_in (view w')) ≡ desired_href c (view w Kind.route_kind route_key))
        × Frame Kind.console_link_kind console_link_key (view w) (view w'))
  unfolding reconcile is_not_found
  reconcile-Settles c w h =
      subst
        (λ b.
          Settles s
            (if not b
              then pure tt
              else Program.call (Call.get Kind.route_kind route_key) (with_route c))
            w
            (λ _ w'. Linked (desired_href c (view w Kind.route_kind route_key)) (view w) (view w')))
        (sym h)
        (Ensures-get s
          (OrFault s
            (λ _ w'. Linked (desired_href c (view w Kind.route_kind route_key)) (view w) (view w')))
          Kind.route_kind route_key (with_route c) w
          (λ r w' e u. rw e (with_route-Settles (view w) w' c r u))
          (λ w' e u. rw e (delete-Settles (view w) w' u)) (λ e w' n u f. rw n f))

  link-IsRead :
      (w : World) (c : Settings) (url : String)
      → href_of (link_in (view w)) ≡ some url
      → Issues s IsRead
          (after
            (get_object Kind.console_link_kind console_link_key)
            (update_href url (new_console_link c url "Cluster Argo CD")))
          w
  unfolding is_not_found after
  link-IsRead w c url h =
      Issues-get s IsRead Kind.console_link_kind console_link_key
        (update_href url (new_console_link c url "Cluster Argo CD")) w tt
        (λ x w' e u. rw (==-of_eq x.body.href url (some-injective _ _ (sym (ap href_of e) ∙ h))) tt)
        (λ w' e u. absurd (none≢text (sym (ap href_of e) ∙ h))) (λ e w' n. rw n tt)

  delete-IsRead :
      (w : World)
      → href_of (link_in (view w)) ≡ none
      → Issues s IsRead delete_console_link_if_present w
  unfolding delete_console_link_if_present is_not_found
  delete-IsRead w h =
      Issues-get s IsRead Kind.console_link_kind console_link_key delete_found w tt
        (λ x w' e u. absurd (none≢text (sym h ∙ ap href_of e))) (λ w' e u. tt) (λ e w' n. rw n tt)

  with_route-IsRead :
      (w : World) (c : Settings) (r : Object Kind.route_kind)
      → href_of (link_in (view w)) ≡ desired_href c (some r)
      → Issues s IsRead (with_route c (Result.ok r)) w
  unfolding new_console_link
  with_route-IsRead w c r = elim (Bool-cases (is_console_link_disabled c)) [
    | inl disabled ↦ rw disabled (delete-IsRead w)
    | inr enabled ↦ rw enabled (link-IsRead w c ("https://" ⧺ r.body))
  ]

  -- Where the address of the console link already is the one that the route and the settings ask for,
  -- or the link is absent as they ask, a reconcile makes no call but reads.
  pub reconcile-IsRead :
      (c : Settings) (w : World)
      → href_of (link_in (view w)) ≡ desired_href c (view w Kind.route_kind route_key)
      → Issues s IsRead (reconcile c) w
  unfolding reconcile is_not_found
  reconcile-IsRead c w h = elim (Bool-cases c.console_api_found) [
    | inr off ↦
        subst
          (λ b.
            Issues s IsRead
              (if not b
                then pure tt
                else Program.call (Call.get Kind.route_kind route_key) (with_route c))
              w)
          (sym off) tt
    | inl on ↦
        subst
          (λ b.
            Issues s IsRead
              (if not b
                then pure tt
                else Program.call (Call.get Kind.route_kind route_key) (with_route c))
              w)
          (sym on)
          (Issues-get s IsRead Kind.route_kind route_key (with_route c) w tt
            (λ r w' e u.
              with_route-IsRead w' c r (
                ap href_of (u Kind.console_link_kind console_link_key) ∙ h ∙ ap (desired_href c) e))
            (λ w' e u.
              delete-IsRead w' (
                ap href_of (u Kind.console_link_kind console_link_key) ∙ h ∙ ap (desired_href c) e))
            (λ e w' n. rw n tt))
  ]
