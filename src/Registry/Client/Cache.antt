-- ===== src/Registry/Client/Cache.antt =====
-- What the cache of tags answers.
use Prim.Native.String.{◌++◌}
use k8s4claw.Base.{
  ℕ, ◌+◌, ◌≡◌, inl, inr, refl, ap, delete, ◌∙◌, String, Bool, true, false, Option, none, some, List,
  arith, Option-cases, if◌then◌else◌, str_eq, eq_refl, lookup, lookup-insert,
}
use k8s4claw.Registry.Client.{
  Http, RegistryClient, fresh, body_of, exchange_token, fetch_tags, authorised, list_tags,
}

exchange_token_rest :
    (http : Http) (now later : ℕ) (image : String) (c : RegistryClient)
    → ((exchange_token http now later image c).0.cache_ttl ≡ c.cache_ttl)
      × ((exchange_token http now later image c).0.cache ≡ c.cache)
unfolding exchange_token
exchange_token_rest http now later image c = ground arith

-- A body that the registry answers is put in the cache as it is handed over.
fetch_tags_stores :
    (http : Http) (later : ℕ) (image : String) (bearer : Option String) (c : RegistryClient)
    (tags : List String)
    → (fetch_tags http later image bearer c).1 ≡ some tags
    → lookup image (fetch_tags http later image bearer c).0.cache ≡ some (tags, later + c.cache_ttl)
unfolding fetch_tags body_of
fetch_tags_stores http later image bearer c tags q =
    elim (Option-cases (body_of (http.tags (image ++ "/tags/list") bearer))) [
      | inl bad ↦ absurd (ground arith)
      | inr (ts, good) ↦
          ground (arith, eq_refl image, lookup-insert image image (ts, later + c.cache_ttl) c.cache)
    ]

fetched_tags :
    (http : Http) (later : ℕ) (image : String) (r : RegistryClient × Option String)
    (tags : List String)
    → (authorised http later image r).1 ≡ some tags
    → lookup image (authorised http later image r).0.cache ≡ some (tags, later + r.0.cache_ttl)
unfolding authorised
fetched_tags http later image (c, none) tags q = absurd cc
fetched_tags http later image (c, some token) tags q =
    fetch_tags_stores http later image (some token) c tags q

asked :
    (b : Bool) (x y : RegistryClient × Option (List String)) (image : String) (tags : List String)
    (n : ℕ)
    → (x.1 ≡ some tags → lookup image x.0.cache ≡ some (tags, n))
    → (y.1 ≡ some tags → lookup image y.0.cache ≡ some (tags, n))
    → (if b then x else y).1 ≡ some tags
    → lookup image (if b then x else y).0.cache ≡ some (tags, n)
asked true x y image tags n h h' q = h q
asked false x y image tags n h h' q = h' q

-- Tags that the cache does not answer and that the registry does, with or without a token, are in
-- the cache afterwards, to expire at the configured time after the answer.
list_tags_stores :
    (http : Http) (now later : ℕ) (image : String) (c : RegistryClient) (tags : List String)
    → fresh now (lookup image c.cache) ≡ none
    → (list_tags http now later image c).1 ≡ some tags
    → lookup image (list_tags http now later image c).0.cache ≡ some (tags, later + c.cache_ttl)
unfolding list_tags
list_tags_stores http now later image c tags stale q =
    let c' : RegistryClient = record c { cache = delete image c.cache } in
    let ask : RegistryClient × Option String = exchange_token http now later image c' in
    let same : list_tags http now later image c ≡ (
        if str_eq c.token_url ""
        then fetch_tags http later image none c'
        else authorised http later image ask) =
      rw (stale, list_tags) refl in
    rw same (
      asked (str_eq c.token_url "") (fetch_tags http later image none c')
        (authorised http later image ask) image tags (later + c.cache_ttl)
        (fetch_tags_stores http later image none c' tags)
        (λ good.
          fetched_tags http later image ask tags good
          ∙ ap (λ n. some (tags, later + n)) (exchange_token_rest http now later image c').0)
        (rw same at q))
