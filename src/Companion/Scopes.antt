-- ===== src/Companion/Scopes.antt =====
-- When the companion watches the whole cluster: cmd/claw4k8s/main.go.
use k8s4claw.Base.{
  ◌≡◌, ◌≢◌, ◌⊎◌, refl, String, true, false, not, inl, inr, List, [], ◌∷◌, str_eq, eq_iff, arith,
  trim_space, split_at, map, keep, All, keep-All, All-map, Bool-cases,
}
use k8s4claw.Companion.Namespaces.{
  Environ, getenv, or_else, raw_namespaces, usable, pod_namespace, own_namespace, listed_namespaces,
  resolve_watch_namespaces,
}

-- Some namespaces, none of them the empty text, which would stand for all of them.
abbrev pub IsScoped : List String → Type 0
IsScoped namespaces = (namespaces ≢ []) × All (λ ns. str_eq ns "" ≡ false) namespaces

or_else_filled : (s : String) → str_eq (or_else s "default") "" ≡ false
or_else_filled s = elim (Bool-cases (str_eq s "")) [
  | inl empty ↦ rw empty refl
  | inr there ↦ rw there there
]

pod_namespace_filled : (env : Environ) → str_eq (pod_namespace env) "" ≡ false
unfolding pod_namespace
pod_namespace_filled env = or_else_filled (getenv env "POD_NAMESPACE")

own-IsScoped : (env : Environ) → IsScoped (own_namespace env).0
unfolding own_namespace
own-IsScoped env = ((λ q. ground arith), (pod_namespace_filled env, tt))

listed-IsScoped :
    (env : Environ) (namespaces : List String)
    → All (λ ns. str_eq ns "" ≡ false) namespaces
    → IsScoped (listed_namespaces env namespaces).0
unfolding listed_namespaces
listed-IsScoped env [] h = own-IsScoped env
listed-IsScoped env (ns ∷ rest) h = ((λ q. ground arith), h)

usable_filled : (raw : String) → All (λ ns. str_eq ns "" ≡ false) (usable raw)
unfolding usable
usable_filled raw =
    let parts = map trim_space (split_at 44 raw) in
    All-map (λ p. not (str_eq p "") ≡ true) (λ p. str_eq p "" ≡ false) (λ p h. ground (arith, h))
      (keep (λ p. not (str_eq p "")) parts) (keep-All (λ p. not (str_eq p "")) parts)

-- The companion watches the whole cluster exactly if the variable is a single star, with spaces
-- around it or not. Otherwise it watches at least one namespace, and none of them is the empty text,
-- whatever the variables are: neither an empty variable nor one of commas and spaces widens it.
resolve_watch_namespaces-IsScoped :
    (env : Environ)
    → ((raw_namespaces env ≡ "*") × ((resolve_watch_namespaces env).0 ≡ []))
      ⊎ ((raw_namespaces env ≢ "*") × IsScoped (resolve_watch_namespaces env).0)
unfolding resolve_watch_namespaces
resolve_watch_namespaces-IsScoped env = elim (Bool-cases (str_eq (raw_namespaces env) "*")) [
  | inl star ↦
      rw (star, resolve_watch_namespaces) (inl ((eq_iff (raw_namespaces env) "*").0 star, refl))
  | inr other ↦
      let apart : raw_namespaces env ≢ "*" =
        λ q. ground (arith, other, (eq_iff (raw_namespaces env) "*").1 q) in
      elim (Bool-cases (str_eq (raw_namespaces env) "")) [
        | inl empty ↦ inr (apart, rw (other, resolve_watch_namespaces, empty) (own-IsScoped env))
        | inr there ↦ inr (
          apart,
          rw (other, resolve_watch_namespaces, there)
              (listed-IsScoped env (usable (raw_namespaces env))
                (usable_filled (raw_namespaces env))),
        )
      ]
]
