-- ===== src/Registry/Image.antt =====
-- References to images and registries: the last functions of internal/registry/resolver.go.
use Prim.Native.String.{◌++◌}
use k8s4claw.Base.{
  String, Bool, none, some, str_eq, if◌then◌else◌, contains, cut_prefix, after_first, before_first,
}

-- A prefix taken off if it is there.
unfoldable pub trim_prefix : String → String → String
trim_prefix s p = elim (cut_prefix s p) [ none ↦ s | some r ↦ r ]

-- The text behind the first slash, or the whole.
behind_slash : String → String
behind_slash u = elim (after_first b'/' u) [ none ↦ u | some r ↦ r ]

unfoldable pub extract_scope : String → String
unfolding trim_prefix behind_slash
extract_scope image =
    "repository:"
    ++ trim_prefix (behind_slash (trim_prefix (trim_prefix image "https://") "http://")) "v2/"
    ++ ":pull"

unfoldable pub is_digest_pinned : String → Bool
is_digest_pinned image = contains image "@sha256:"

unfoldable pub image_for_runtime : String → String
image_for_runtime runtime =
    if str_eq runtime "openclaw"
    then "ghcr.io/prismer-ai/k8s4claw-openclaw"
    else (if str_eq runtime "hermesclaw"
        then "ghcr.io/nousresearch/hermes-agent"
        else (if str_eq runtime "hermesrs"
            then "ghcr.io/prismer-ai/hermes-agent-rs"
            else (if str_eq runtime "k8sops" then "ghcr.io/prismer-ai/claw4k8s" else "")))

-- `SplitN(image, "/", 2)` has two parts exactly if there is a slash.
unfoldable pub registry_url_for_image : String → String
registry_url_for_image image = elim (after_first b'/' image) [
  | none ↦ ""
  | some rest ↦ "https://" ++ before_first b'/' image ++ "/v2/" ++ rest
]

unfoldable pub token_url_for_registry : String → String
token_url_for_registry host =
    if str_eq host "ghcr.io"
    then "https://ghcr.io/token"
    else (if str_eq host "registry-1.docker.io"
        then "https://auth.docker.io/token"
        else (if str_eq host "docker.io" then "https://auth.docker.io/token" else ""))
