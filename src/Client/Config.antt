-- ===== src/Client/Config.antt =====
-- bin/client/src/main.rs: the configuration from the environment, and Config of bin/client/src/lib.rs.
use gozara.Base.{
  sym, ◌∙◌, ◌++◌, append_assoc, append-nil, ◌≡◌, refl, ap, String, List, [], ◌∷◌, Option, none,
  some, Result, ok, err, ◌>>=◌, ok_or, inl, inr, Option-cases, string_eq,
}
use gozara.Base.Maps.{lookup}

pub record Config : Type 0 where
  pub grpc_addr : String
  pub key_file : Option String
  pub bootnode_peer_id : String
  pub bootnode_ip_addr : String
  pub bootnode_port : String
  pub external_ip_addr : String
  pub external_port : String
  pub zone : String

-- `env::var(name).with_context(..)?`: an error names the variable that is missing.
unfoldable pub require : List (String × String) → String → Result String String
require env name = ok_or (lookup name env) name

-- `unwrap_or("ME".to_string())`
unfoldable pub zone_of : Option String → String
zone_of none = "ME"
zone_of (some zone) = zone

unfoldable pub load_config : List (String × String) → Result String Config
load_config env = do
  grpc_addr ← require env "NODE_GRPC_ADDR"
  bootnode_peer_id ← require env "BOOTNODE_PEER_ID"
  bootnode_ip_addr ← require env "BOOTNODE_IP_ADDR"
  bootnode_port ← require env "BOOTNODE_PORT"
  external_ip_addr ← require env "EXTERNAL_IP_ADDR"
  external_port ← require env "EXTERNAL_PORT"
  ok (record {
    grpc_addr = grpc_addr;
    key_file = lookup "KEY_FILE" env;
    bootnode_peer_id = bootnode_peer_id;
    bootnode_ip_addr = bootnode_ip_addr;
    bootnode_port = bootnode_port;
    external_ip_addr = external_ip_addr;
    external_port = external_port;
    zone = zone_of (lookup "ZONE" env);
  })

-- The variables without which the client does not start.
abbrev pub required : List String
required =
    "NODE_GRPC_ADDR" ∷ "BOOTNODE_PEER_ID" ∷ "BOOTNODE_IP_ADDR" ∷ "BOOTNODE_PORT"
    ∷ "EXTERNAL_IP_ADDR" ∷ "EXTERNAL_PORT" ∷ []

-- The values of the names, or the first name that has none.
abbrev pub values : List (String × String) → List String → Result String (List String)
values env [] = ok []
values env (name ∷ names) = elim (lookup name env) [
  | none ↦ err name
  | some value ↦ elim (values env names) [ ok rest ↦ ok (value ∷ rest) | err e ↦ err e ]
]

-- The required values of a configuration, in the order of `required`.
abbrev pub values_of : Config → List String
values_of c =
    c.grpc_addr ∷ c.bootnode_peer_id ∷ c.bootnode_ip_addr ∷ c.bootnode_port ∷ c.external_ip_addr
    ∷ c.external_port ∷ []

-- What a result has to do with the environment.
abbrev pub Loads : List (String × String) → Result String Config → Type 0
Loads env (ok c) = values env required ≡ ok (values_of c)
Loads env (err name) = values env required ≡ err name

-- The same in the middle of the chain: `before` is read, and `names` are to come.
unfoldable Continues :
    List (String × String) → List String → List String → Result String Config → Type 0
Continues env names before (ok c) =
    (rest : List String) × (values env names ≡ ok rest) × (before ++ rest ≡ values_of c)
Continues env names before (err name) = values env names ≡ err name

module _ (env : List (String × String)) (name : String) (names before : List String) where
  found-Continues :
      (value : String) (r : Result String Config)
      → lookup name env ≡ some value
      → Continues env names (before ++ value ∷ []) r
      → Continues env (name ∷ names) before r
  unfolding Continues
  found-Continues value (ok c) e (rest, read, same) = (
    value ∷ rest,
    rw (e, values) (rw read refl),
    sym (append_assoc before (value ∷ []) rest) ∙ same,
  )
  found-Continues value (err other) e read = rw (e, values) (rw read refl)

  -- One `require` and what follows it.
  require-Continues :
      (go : String → Result String Config)
      → ((value : String) → Continues env names (before ++ value ∷ []) (go value))
      → Continues env (name ∷ names) before (require env name >>= go)
  unfolding require Continues
  require-Continues go h = elim (Option-cases (lookup name env)) [
    | inl missing ↦ rw missing (rw (missing, values) refl)
    | inr (value, found) ↦ rw found (found-Continues value (go value) found (h value))
  ]

-- The whole chain.
Continues-Loads :
    (env : List (String × String)) (r : Result String Config)
    → Continues env required [] r
    → Loads env r
unfolding Continues
Continues-Loads env (ok c) (rest, read, same) = read ∙ ap ok same
Continues-Loads env (err name) read = read

-- The end of the chain.
done-Continues :
    (env : List (String × String)) (before : List String) (c : Config)
    → before ≡ values_of c
    → Continues env [] before (ok c)
unfolding Continues
done-Continues env before c h = ([], refl, append-nil before ∙ h)

-- `load_config` fails exactly with the first of the required variables that the environment does
-- not have, and otherwise returns a configuration with the values of these variables.
pub load_config-Loads : (env : List (String × String)) → Loads env (load_config env)
unfolding load_config
load_config-Loads env = Continues-Loads env _ (
    require-Continues env _ _ _ _ (λ grpc_addr. require-Continues env _ _ _ _ (λ bootnode_peer_id.
      require-Continues env _ _ _ _ (λ bootnode_ip_addr.
        require-Continues env _ _ _ _ (λ bootnode_port.
          require-Continues env _ _ _ _ (λ external_ip_addr.
            require-Continues env _ _ _ _ (λ external_port. done-Continues env _ _ refl)))))))
