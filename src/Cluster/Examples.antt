-- ===== src/Cluster/Examples.antt =====
-- An inspection of a cluster that is not OpenShift.
use gitops_operator.Base.{◌≡◌, true, false, if◌then◌else◌}
use gitops_operator.Kube.{Error, Result}
use gitops_operator.Cluster.{ApiGroup, Flags, Probe, inspect_cluster}
use gitops_operator.Cluster.Apis.{
  is_probed, probed, errors_of, probed_groups, inspect_cluster-flags,
}

-- OLM is there, the probe of monitoring fails, and nothing else is there.
abbrev probe : Probe
probe ApiGroup.olm_group = Result.ok true
probe ApiGroup.monitoring_group = Result.err (Error.failure "timeout")
probe _ = Result.ok false

abbrev unknown : Flags
unknown _ = false

inspect_cluster-flags_example :
    ((g : ApiGroup)
      → (inspect_cluster probe unknown).0 g
        ≡ (if is_probed probe g then probed (probe g) (unknown g) else unknown g))
    × ((inspect_cluster probe unknown).1 ≡ errors_of probe (probed_groups probe))
inspect_cluster-flags_example = inspect_cluster-flags probe unknown
