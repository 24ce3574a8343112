-- ===== src/Kube/Equality.antt =====
-- reflect.DeepEqual at the types that the reconcilers compare.
use gitops_operator.Base.{
  ℕ, not, arith, ltb, ltb_iff, ◌≡◌, refl, Bool, true, false, ◌&&◌, &&-intro, eq_refl, ◌==◌,
  DeepEqual, String-deep_equal, StringMap-deep_equal, List-deep_equal, deep_equal, deep_equal_refl,
  same_option, same_option_refl,
}
use gitops_operator.Kube.Objects.{
  EnvVar, Resources, Capabilities, SecurityContext, Toleration, PolicyRule,
}

abbrev pub same_bool : Bool → Bool → Bool
same_bool true b = b
same_bool false true = false
same_bool false false = true

pub same_bool_refl : (b : Bool) → same_bool b b ≡ true
same_bool_refl true = refl
same_bool_refl false = refl

instance abbrev pub Bool-deep_equal : DeepEqual Bool
Bool-deep_equal = record { same = same_bool; same_refl = same_bool_refl }

instance abbrev pub EnvVar-deep_equal : DeepEqual EnvVar
EnvVar-deep_equal = record {
  same = λ a b. a.name == b.name && a.value == b.value;
  same_refl = λ a. &&-intro (eq_refl a.name) (eq_refl a.value);
}

instance abbrev pub Resources-deep_equal : DeepEqual Resources
Resources-deep_equal = record {
  same = λ a b. deep_equal a.requests b.requests && deep_equal a.limits b.limits;
  same_refl = λ a. &&-intro (deep_equal_refl a.requests) (deep_equal_refl a.limits);
}

abbrev pub same_number : ℕ → ℕ → Bool
same_number m n = not (ltb m n) && not (ltb n m)

pub same_number_refl : (n : ℕ) → same_number n n ≡ true
same_number_refl n = ground (arith, ltb_iff n n)

instance abbrev pub Number-deep_equal : DeepEqual ℕ
Number-deep_equal = record { same = same_number; same_refl = same_number_refl }

instance abbrev pub Toleration-deep_equal : DeepEqual Toleration
Toleration-deep_equal = record {
  same = λ a b.
      a.key == b.key
      && (a.operator == b.operator
          && (a.value == b.value
              && (a.effect == b.effect && same_option a.toleration_seconds b.toleration_seconds)));
  same_refl = λ a. &&-intro (eq_refl a.key) (
      &&-intro (eq_refl a.operator) (
        &&-intro (eq_refl a.value)
          (&&-intro (eq_refl a.effect) (same_option_refl a.toleration_seconds))));
}

instance abbrev pub PolicyRule-deep_equal : DeepEqual PolicyRule
PolicyRule-deep_equal = record {
  same = λ a b.
      deep_equal a.api_groups b.api_groups
      && (deep_equal a.resources b.resources
          && (deep_equal a.verbs b.verbs && deep_equal a.non_resource_urls b.non_resource_urls));
  same_refl = λ a. &&-intro (deep_equal_refl a.api_groups) (
      &&-intro (deep_equal_refl a.resources)
        (&&-intro (deep_equal_refl a.verbs) (deep_equal_refl a.non_resource_urls)));
}

instance abbrev pub Capabilities-deep_equal : DeepEqual Capabilities
Capabilities-deep_equal = record {
  same = λ a b. deep_equal a.add b.add && deep_equal a.drop b.drop;
  same_refl = λ a. &&-intro (deep_equal_refl a.add) (deep_equal_refl a.drop);
}

instance abbrev pub SecurityContext-deep_equal : DeepEqual SecurityContext
SecurityContext-deep_equal = record {
  same = λ a b.
      same_option a.capabilities b.capabilities
      && (same_option a.run_as_non_root b.run_as_non_root
          && (same_option a.allow_privilege_escalation b.allow_privilege_escalation
              && same_option a.seccomp_profile b.seccomp_profile));
  same_refl = λ a. &&-intro (same_option_refl a.capabilities) (
      &&-intro (same_option_refl a.run_as_non_root) (
        &&-intro (same_option_refl a.allow_privilege_escalation)
          (same_option_refl a.seccomp_profile)));
}
