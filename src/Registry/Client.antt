-- ===== src/Registry/Client.antt =====
-- The registry client with its two caches: `ListTags` and `exchangeToken` of
-- internal/registry/resolver.go. Times are in nanoseconds; `now` is the clock at the lookup and
-- `later` the clock when the answer has come.
pub mod Cache
mod Tests
use Prim.Native.String.{◌++◌}
use k8s4claw.Base.{
  ℕ, ◌+◌, ◌*◌, String, Bool, true, false, not, Option, none, some, List, [], if◌then◌else◌, ltb,
  str_eq, ◌==◌, Dict, lookup, insert, delete,
}
use k8s4claw.Registry.Image.{extract_scope}

-- What a request comes to: no answer, or a status with a body that may not decode.
pub data Reply (A : Type 0) : Type 0 where
  no_answer : Reply A
  answer : ℕ → Option A → Reply A

-- The HTTP client on the two kinds of request. `tags` takes the URL and the bearer token;
-- `token` takes the token URL and the scope, and has no answer for a URL that does not parse.
pub record Http : Type 0 where
  pub tags : String → Option String → Reply (List String)
  pub token : String → String → Reply String

pub record RegistryClient : Type 0 where
  pub token_url : String
  pub cache_ttl : ℕ
  pub cache : Dict (List String × ℕ)
  pub token_cache : Dict (String × ℕ)

abbrev pub token_cache_ttl : ℕ
token_cache_ttl = 4 * 60 * 1_000_000_000

unfoldable pub new_registry_client : String → ℕ → RegistryClient
new_registry_client token_url ttl = record {
  token_url = token_url;
  cache_ttl = ttl;
  cache = [];
  token_cache = [];
}

-- The value of an entry that has not expired.
unfoldable pub fresh : {A : Type 0} → ℕ → Option (A × ℕ) → Option A
fresh now none = none
fresh now (some (a, expires_at)) = if ltb now expires_at then some a else none

-- The value of an answer of status 200 that decodes.
unfoldable pub body_of : {A : Type 0} → Reply A → Option A
body_of no_answer = none
body_of (answer code content) = if code == 200 then content else none

unfoldable pub exchange_token :
    Http → ℕ → ℕ → String → RegistryClient → RegistryClient × Option String
unfolding fresh body_of
exchange_token http now later image c =
    let scope = extract_scope image in
    elim (fresh now (lookup scope c.token_cache)) [
      | some token ↦ (c, some token)
      | none ↦
          let c' : RegistryClient = record c { token_cache = delete scope c.token_cache } in
          elim (body_of (http.token c.token_url scope)) [
            | none ↦ (c', none)
            | some token ↦ (
              record c' {
                token_cache = insert scope (token, later + token_cache_ttl) c'.token_cache;
              },
              some token,
            )
          ]
    ]

-- The request for the tags and the update of the cache.
unfoldable pub fetch_tags :
    Http → ℕ → String → Option String → RegistryClient → RegistryClient × Option (List String)
unfolding body_of
fetch_tags http later image bearer c = elim (body_of (http.tags (image ++ "/tags/list") bearer)) [
  | none ↦ (c, none)
  | some tags ↦ (record c { cache = insert image (tags, later + c.cache_ttl) c.cache }, some tags)
]

-- The bearer token, if one is configured; a failed exchange ends the call.
unfoldable pub authorised :
    Http → ℕ → String → RegistryClient × Option String → RegistryClient × Option (List String)
unfolding fetch_tags
authorised http later image (c, none) = (c, none)
authorised http later image (c, some token) = fetch_tags http later image (some token) c

unfoldable pub list_tags :
    Http → ℕ → ℕ → String → RegistryClient → RegistryClient × Option (List String)
unfolding fresh body_of authorised fetch_tags
list_tags http now later image c = elim (fresh now (lookup image c.cache)) [
  | some tags ↦ (c, some tags)
  | none ↦
      let c' : RegistryClient = record c { cache = delete image c.cache } in
      if str_eq c.token_url ""
      then fetch_tags http later image none c'
      else authorised http later image (exchange_token http now later image c')
]
