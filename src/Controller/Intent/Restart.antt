-- ===== src/Controller/Intent/Restart.antt =====
-- Which pod a restart deletes (`applyRestartPod` of
-- internal/controller/claw_ops_intent_consumer.go).
use k8s4claw.Base.{
  ◌≤◌, ◌≡◌, ◌⊎◌, inl, inr, refl, sym, ◌∙◌, true, false, some, List, [], ◌∷◌, arith, Bool-cases,
  if◌then◌else◌, ltb, All,
}
use k8s4claw.Controller.Intent.Types.{Pod, oldest_of, oldest_pod}

-- The pod is one of the list.
abbrev pub Listed : Pod → List Pod → Type 0
Listed pod [] = true ≡ false
Listed pod (p ∷ pods) = (p ≡ pod) ⊎ Listed pod pods

older_lem :
    (oldest pod : Pod)
    → ((if ltb pod.created oldest.created then pod else oldest).created ≤ oldest.created)
      × ((if ltb pod.created oldest.created then pod else oldest).created ≤ pod.created)
older_lem oldest pod = ground arith

older_from :
    (oldest pod : Pod)
    → ((if ltb pod.created oldest.created then pod else oldest) ≡ oldest)
      ⊎ ((if ltb pod.created oldest.created then pod else oldest) ≡ pod)
older_from oldest pod = elim (Bool-cases (ltb pod.created oldest.created)) [
  | inl older ↦ inr (rw older refl)
  | inr younger ↦ inl (rw younger refl)
]

oldest_of_lem :
    (oldest : Pod) (pods : List Pod)
    → ((oldest ≡ oldest_of oldest pods) ⊎ Listed (oldest_of oldest pods) pods)
      × ((oldest_of oldest pods).created ≤ oldest.created)
      × All (λ p. (oldest_of oldest pods).created ≤ p.created) pods
unfolding oldest_of
oldest_of_lem oldest [] = (inl refl, omega arith, tt)
oldest_of_lem oldest (pod ∷ pods) =
    let older : Pod = if ltb pod.created oldest.created then pod else oldest in
    let (from, below, all) = oldest_of_lem older pods in
    let (le, le') = older_lem oldest pod in
    let low : (oldest_of older pods).created ≤ oldest.created = omega (arith, below, le) in
    let low' : (oldest_of older pods).created ≤ pod.created = omega (arith, below, le') in
    (step (older_from oldest pod) from, low, (low', all))
  where
    step :
        {found : Pod}
        → {older : Pod} → (older ≡ oldest) ⊎ (older ≡ pod)
        → (older ≡ found) ⊎ Listed found pods
        → (oldest ≡ found) ⊎ ((pod ≡ found) ⊎ Listed found pods)
    step c (inr listed) = inr (inr listed)
    step (inl same) (inl it) = inl (sym same ∙ it)
    step (inr same) (inl it) = inr (inl (sym same ∙ it))

-- The pod that a restart deletes is one of the pods listed, and no pod listed was created before
-- it; there is one unless no pod is listed.
oldest_pod_oldest :
    (pods : List Pod) (pod : Pod)
    → oldest_pod pods ≡ some pod
    → Listed pod pods × All (λ p. pod.created ≤ p.created) pods
unfolding oldest_pod
oldest_pod_oldest [] pod q = absurd cc
oldest_pod_oldest (p ∷ pods) pod q =
    let same : oldest_of p pods ≡ pod = ground arith in
    let (from, below, all) = oldest_of_lem p pods in
    (rw same at from, (rw same at below, rw same at all))
