-- ===== src/Kube/Idioms.antt =====
-- The three shapes in which the controllers treat an object: create it if it is missing, create or
-- amend it, delete it if it is there.
pub mod Specs
pub mod Chains
pub mod Creations
pub mod Stable
use gitops_operator.Base.{String, ◌≡◌, Option, none, some, Bool, true, false, if◌then◌else◌}
use gitops_operator.Kube.Objects.{NamespacedName, ObjectMeta}
use gitops_operator.Kube.Api.{
  Kind, Object, key_of, Error, is_not_found, Result, Program, Io, after, pure, throw, lift,
  get_object, create_object, update_object, delete_object, ◌>>=◌,
}

-- controllerutil.SetControllerReference for one scheme: the owner's name, and the metadata
abbrev pub Reference : Type 0
Reference = String → ObjectMeta → Result ObjectMeta

-- A reference is set on metadata that has no controller yet, and nothing else changes.
abbrev pub SetsOwner : Reference → Type 0
SetsOwner reference =
    (owner : String) (m : ObjectMeta)
    → m.owner ≡ none
    → reference owner m ≡ Result.ok (record m { owner = some owner })

-- after `Get`: return on success and on an error that is not NotFound
abbrev pub absent_then : {k : Kind} → Io (Unit {0}) → Result (Object k) → Io (Unit {0})
absent_then create (Result.ok _) = pure tt
absent_then create (Result.err e) = if is_not_found e then create else throw e

module _ (reference : Reference) (owner : String) where
  -- `SetControllerReference`, then `Create`
  unfoldable pub create_owned : (k : Kind) → Object k → Io (Unit {0})
  unfolding ◌>>=◌
  create_owned k o = do
    m ← lift (reference owner o.meta)
    create_object k (record { meta = m; body = o.body })

  unfoldable pub create_if_absent : (k : Kind) → Object k → Io (Unit {0})
  unfolding after create_owned
  create_if_absent k o = after (get_object k (key_of o.meta)) (absent_then (create_owned k o))

-- What to do with an object that is there already.
pub data Change (A : Type 0) : Type 0 where
  keep : Change A
  replace : A → Change A
  panic : Change A

abbrev pub apply_change : {k : Kind} → Change (Object k) → Io (Unit {0})
apply_change Change.keep = pure tt
apply_change {k} (Change.replace o) = update_object k o
apply_change Change.panic = Program.crash

abbrev pub create_or_change :
    {k : Kind} → Object k → (Object k → Change (Object k)) → Result (Object k) → Io (Unit {0})
create_or_change o amend (Result.ok x) = apply_change (amend x)
create_or_change {k} o amend (Result.err e) = if is_not_found e then create_object k o else throw e

-- `SetControllerReference`, `Get`, and then `Create`, or `Update` where the object differs.
unfoldable pub create_or_amend :
    Reference → String → (k : Kind) → Object k → (Object k → Change (Object k)) → Io (Unit {0})
unfolding ◌>>=◌ after
create_or_amend reference owner k o amend = do
  m ← lift (reference owner o.meta)
  after (get_object k (key_of m)) (create_or_change (record { meta = m; body = o.body }) amend)

abbrev pub ignore_missing : (Error → Error) → Result (Unit {0}) → Io (Unit {0})
ignore_missing wrap (Result.ok _) = pure tt
ignore_missing wrap (Result.err e) = if is_not_found e then pure tt else throw (wrap e)

-- `Delete`, where NotFound is no error; `wrap` is what is returned for another error
unfoldable pub delete_if_present : (Error → Error) → Kind → NamespacedName → Io (Unit {0})
unfolding after
delete_if_present wrap k n = after (delete_object k n) (ignore_missing wrap)
