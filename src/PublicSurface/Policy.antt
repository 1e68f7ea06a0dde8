-- ===== src/PublicSurface/Policy.antt =====
-- public-surface.mjs: the policy of a public server, the configuration that a browser is given, and the
-- binding of a sign-in message. Parsing a URL, and what is an IP or an address, are parameters.
use oncm.Prelude.{
  ℕ, Bool, false, ◌&&◌, ◌||◌, not, Option, none, some, List, [], ◌∷◌, ◌==◌, if◌then◌else◌, String,
  is_same, includes, Result, ok, throw, ◌>>◌, throw_if,
}
use Prim.Native.String.{◌++◌}

pub data Error : Type 0 where
  bad_origin bad_owner wrong_deployment : Error

pub record Url : Type 0 where
  pub protocol : String
  pub origin : String
  pub username : String
  pub password : String
  pub hostname : String
  pub host : String

-- What the platform and the address library answer.
pub record Platform : Type 0 where
  pub parse_url : String → Option Url
  pub is_ip : String → Bool
  pub is_address : String → Bool
  pub checksummed : String → String

pub record Env : Type 0 where
  pub origin : String
  pub owner : String
  pub writes : String

pub record Policy : Type 0 where
  pub origin : String
  pub host : String
  pub owner : Option String

abbrev pub is_blank : String → Bool
is_blank s = is_same s ""

unfoldable pub is_public_url : Platform → String → Url → Bool
is_public_url p origin url =
    is_same url.protocol "https:"
    && is_same url.origin origin
    && is_blank url.username
    && is_blank url.password
    && not (is_same url.hostname "localhost")
    && not (p.is_ip url.hostname)

-- `none` is the policy that is not enabled. An environment variable that is not set is the empty text; an
-- owner is given here in lower case.
unfoldable pub create_public_policy : Platform → Env → Result Error (Option Policy)
unfolding is_public_url
create_public_policy p env =
    if is_blank env.origin then ok none else elim (p.parse_url env.origin) [
      | none ↦ throw bad_origin
      | some url ↦ do
        throw_if (not (is_public_url p env.origin url)) bad_origin
        throw_if (not (is_blank env.owner) && not (p.is_address env.owner)) bad_owner
        ok (
            some (record {
              origin = env.origin;
              host = url.host;
              owner = if is_blank env.owner then none else some (p.checksummed env.owner);
            }))
    ]

-- `writeEnabled`, with what `writeReadiness` gives: `none` where it throws.
unfoldable pub write_enabled : Env → Option Bool → Bool
write_enabled env readiness =
    if not (is_same env.writes "1") || is_blank env.owner
    then false
    else elim readiness [ none ↦ false | some ready ↦ ready ]

-- An object is the list of its keys and values.
module _ {V : Type 0} where
  abbrev pub value_of : List (String × V) → String → Option V
  value_of [] k = none
  value_of ((j, v) ∷ rest) k = if is_same j k then some v else value_of rest k

  unfoldable pub pick : List (String × V) → List String → List (String × V)
  pick x [] = []
  pick x (k ∷ keys) = elim (value_of x k) [ none ↦ pick x keys | some v ↦ (k, v) ∷ pick x keys ]

pub record Config (V : Type 0) : Type 0 where
  pub protocol_version : String
  pub chain_id : ℕ
  pub values : List (String × V)
  pub chain_instance : List (String × V)
  pub social : Option (List (String × V))

abbrev pub config_keys : List String
config_keys =
    "name" ∷ "chainId" ∷ "protocolVersion" ∷ "deploymentBlock" ∷ "addresses" ∷ "proof"
    ∷ "exampleOperator" ∷ "monetaryPolicy" ∷ []

abbrev pub chain_keys : List String
chain_keys = "id" ∷ "kind" ∷ "chainId" ∷ "createdAt" ∷ "genesisTimestamp" ∷ []

abbrev pub social_keys : List String
social_keys =
    "format" ∷ "chainId" ∷ "chainInstance" ∷ "statementRegistry" ∷ "schemaRegistry" ∷ "eas"
    ∷ "resolver" ∷ "schemas" ∷ "deploymentBlock" ∷ "easPackage" ∷ "contractVersion"
    ∷ "releaseCommit" ∷ "codeHashes" ∷ []

-- What a browser is given in public mode; the capabilities that are always off or on are left out but for the two
-- that `write` decides.
pub record Exposed (V : Type 0) : Type 0 where
  pub values : List (String × V)
  pub chain_instance : List (String × V)
  pub social : Option (List (String × V))
  pub public_origin : String
  pub public_owner : Option String
  pub rpc_url : String
  pub api_url : String
  pub web_url : String
  pub write_enabled : Bool

module _ {V : Type 0} where
  unfoldable pub browser_config : Config V → Policy → Bool → Result Error (Exposed V)
  unfolding pick
  browser_config config policy write = do
    throw_if (not (is_same config.protocol_version "2") || not (config.chain_id == 31373))
        wrong_deployment
    ok (record {
      values = pick config.values config_keys;
      chain_instance = pick config.chain_instance chain_keys;
      social = elim config.social [ none ↦ none | some s ↦ some (pick s social_keys) ];
      public_origin = policy.origin;
      public_owner = policy.owner;
      rpc_url = policy.origin ++ "/rpc";
      api_url = policy.origin ++ "/api";
      web_url = policy.origin;
      write_enabled = write;
    })

pub record Siwe : Type 0 where
  pub uri : String
  pub chain_id : ℕ
  pub domain : String

unfoldable pub valid_siwe_binding : Platform → Siwe → Option Policy → List String → Bool
valid_siwe_binding p siwe policy allowed = elim (p.parse_url siwe.uri) [
  | none ↦ false
  | some uri ↦ if not (siwe.chain_id == 31373) then false else elim policy [
    | some pol ↦
        is_same siwe.domain pol.host
        && is_same uri.origin pol.origin
        && is_same uri.protocol "https:"
    | none ↦
        includes allowed uri.origin
        && elim (p.parse_url uri.origin) [ none ↦ false | some u ↦ is_same u.host siwe.domain ]
  ]
]
