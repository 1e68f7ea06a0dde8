-- ===== src/PublicSurface/Routes.antt =====
-- public-surface.mjs, `publicRouteAllowed`: the routes that a public server keeps.
use oncm.Prelude.{
  ℕ, Bool, false, ◌&&◌, ◌||◌, none, some, List, [], ◌∷◌, leb, ◌==◌, String, is_same, chars,
  every_char, without_prefix, includes,
}

-- `[0-9a-fA-F]`
unfoldable pub is_hex_digit : ℕ → Bool
is_hex_digit c = (leb 48 c && leb c 57) || (leb 97 c && leb c 102) || (leb 65 c && leb c 70)

-- `0x[0-9a-fA-F]{40}` to the end
unfoldable pub is_address_text : String → Bool
unfolding is_hex_digit without_prefix
is_address_text s = elim (without_prefix "0x" s) [
  | none ↦ false
  | some digits ↦ every_char is_hex_digit digits && (chars digits == 40)
]

-- A path below a prefix, of an address.
unfoldable pub is_address_below : String → String → Bool
unfolding is_address_text without_prefix
is_address_below prefix path = elim (without_prefix prefix path) [
  | none ↦ false
  | some rest ↦ is_address_text rest
]

-- the paths that `readPaths` spells out
unfoldable pub plain_paths : List String
plain_paths =
    "/api/health" ∷ "/api/config" ∷ "/api/snapshot" ∷ "/api/fixtures" ∷ "/api/external-proofs"
    ∷ "/api/governance" ∷ "/api/activity" ∷ "/api/auth/nonce" ∷ "/api/auth/me" ∷ "/api/comments"
    ∷ "/api/social/snapshot" ∷ []

unfoldable pub is_read_path : String → Bool
unfolding is_address_below plain_paths
is_read_path path =
    includes plain_paths path
    || is_address_below "/api/profiles/" path
    || is_address_below "/api/blog/" path

unfoldable pub post_paths : List String
post_paths = "/api/auth/verify" ∷ "/api/auth/logout" ∷ "/rpc" ∷ []

unfoldable pub public_route_allowed : String → String → Bool
unfolding is_read_path post_paths
public_route_allowed method path =
    (is_same method "GET" && is_read_path path)
    || (is_same method "POST" && includes post_paths path)
