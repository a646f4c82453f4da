-- ===== src/Registry/Resolver/Tests.antt =====
-- Runs of the choice of a version, with the length of a text as its rank.
use k8s4claw.Base.{◌≡◌, refl, String, true, List, [], ◌∷◌, All}
use k8s4claw.Registry.Resolver.{
  Semver, is_failed, current_version, is_candidate, resolve_best_version,
}
use k8s4claw.Registry.Resolver.Examples.{by_length, longer, measure}
use k8s4claw.Registry.Resolver.Best.{Among, Offered, Passed, resolve_best_version_best}

abbrev tags : List String
tags = "1" ∷ "1.2.10" ∷ "1.2" ∷ "1.2.100" ∷ []

abbrev broken : List String
broken = "1.2.100" ∷ []

resolve_best_version_best_example :
    (v : String) × ("1.2.10" ≡ v)
    × (is_candidate by_length tt (current_version by_length "1.2") broken v ≡ true)
    × Among v tags
    × Offered by_length tags v
    × All (Passed by_length tt (current_version by_length "1.2") broken v) tags
unfolding resolve_best_version longer measure k8s4claw.Registry.Resolver.best_of is_candidate
    is_failed current_version
resolve_best_version_best_example =
    resolve_best_version_best by_length tt tags ">=0.0.0" "1.2" broken "1.2.10" refl refl
