-- ===== src/Companion/Namespaces.antt =====
-- Which namespaces the companion watches: cmd/claw4k8s/main.go.
use k8s4claw.Base.{
  ◌<>◌, String, not, Option, none, some, List, [], ◌∷◌, if◌then◌else◌, str_eq, trim_space, split_at,
  map, keep,
}

-- The environment's variables: `os.LookupEnv`.
abbrev pub Environ : Type 0
Environ = String → Option String

-- `os.Getenv`
abbrev pub getenv : Environ → String → String
getenv env key = elim (env key) [ none ↦ "" | some v ↦ v ]

-- The text that names the namespaces: the older variable counts only if the newer one is not there.
unfoldable pub raw_namespaces : Environ → String
raw_namespaces env = elim (env "CLAW4K8S_WATCH_NAMESPACES") [
  | some v ↦ trim_space v
  | none ↦ elim (env "CLAW4K8S_WATCH_NS") [ some v ↦ trim_space v | none ↦ "" ]
]

-- The parts between commas that are not empty.
unfoldable pub usable : String → List String
usable raw = keep (λ p. not (str_eq p "")) (map trim_space (split_at 44 raw))

unfoldable pub join : List String → String
join [] = ""
join (s ∷ []) = s
join (s ∷ t ∷ ts) = s <> "," <> join (t ∷ ts)

-- A text, or another if it is empty.
abbrev pub or_else : String → String → String
or_else s other = if str_eq s "" then other else s

unfoldable pub pod_namespace : Environ → String
pod_namespace env = or_else (getenv env "POD_NAMESPACE") "default"

unfoldable pub own_namespace : Environ → List String × String
own_namespace env = (pod_namespace env ∷ [], "namespace=" <> pod_namespace env)

unfoldable pub listed_namespaces : Environ → List String → List String × String
listed_namespaces env [] = own_namespace env
listed_namespaces env (ns ∷ rest) = (ns ∷ rest, "namespaces=" <> join (ns ∷ rest))

-- The namespaces, none for the whole cluster, and a label for the log.
unfoldable pub resolve_watch_namespaces : Environ → List String × String
resolve_watch_namespaces env =
    let raw = raw_namespaces env in
    if str_eq raw "*"
    then ([], "cluster-wide")
    else (if str_eq raw "" then own_namespace env else listed_namespaces env (usable raw))
