-- ===== src/Registry/Client/Tests.antt =====
-- A client without tokens against a registry of two tags.
use k8s4claw.Base.{some, [], ◌∷◌}
use k8s4claw.Registry.Client.{Http, RegistryClient, answer, no_answer}

abbrev http : Http
http = record {
  tags = λ url token. answer 200 (some ("1.0" ∷ "1.1" ∷ []));
  token = λ url scope. no_answer;
}

abbrev client : RegistryClient
client = record { token_url = ""; cache_ttl = 60; cache = []; token_cache = [] }
