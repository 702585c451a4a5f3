-- ===== src/Caddy/Routes.antt =====
-- The routes of core/internal/caddy/compiler.go: a read and a write route for each share, the index of
-- the shares, and the redirect to HTTPS.
use dav_deck.Common.{
  ℕ, Bool, true, ◌==◌, List, [], ◌∷◌, ◌++◌, map, Option, none, some, Result, ok, ◌>>◌, ◌>>=◌,
  reject, wrap, if◌then◌else◌,
}
use dav_deck.Common.Text.{Text, CaseTables, codes, text_eq, text_lt, is_empty, trim_suffix_slash}
use dav_deck.Common.Sorting.{sort_slice}
use dav_deck.Domain.User.{User}
use dav_deck.Domain.Share.{Share, validate_share}
use dav_deck.Domain.Dns.{seen_in}
use dav_deck.Domain.Input.{ShareWithPermissions, share, duplicate_share_id, duplicate_share_slug}
use dav_deck.Caddy.Config.{
  Account, DiscoveryEntry, Encoder, Handler, authentication, webdav, discovery, static_response,
  Route,
}
use dav_deck.Caddy.Accounts.{CompileError, invalid_input, compile_accounts}

abbrev pub slash : Text
slash = b'/' ∷ []

-- `joinPublicPath`
unfoldable pub join_public_path : Text → Text → Text
unfolding text_eq trim_suffix_slash
join_public_path base child =
    if text_eq base slash then b'/' ∷ child else trim_suffix_slash base ++ (b'/' ∷ child)

-- `matcher.Host`, where there is a hostname.
abbrev pub host_matcher : Text → List Text
host_matcher hostname = if is_empty hostname then [] else hostname ∷ []

abbrev pub basic_auth : List Account → Handler
basic_auth accounts = authentication (record { algorithm = codes "bcrypt"; accounts = accounts })

-- `permissionRoute`
unfoldable pub permission_route :
    List Text → List Text → List Account → (root prefix hostname : Text) → Route
permission_route paths methods accounts root prefix hostname = record {
  match_sets = record { path = paths; method = methods; host = host_matcher hostname } ∷ [];
  handle = basic_auth accounts ∷ webdav root prefix ∷ [];
  terminal = true;
}

-- `discoveryRoute`
unfoldable pub discovery_route :
    List Text
    → List Account
    → List (Text × List DiscoveryEntry)
    → (base_path hostname : Text) → Route
discovery_route paths accounts entries base_path hostname = record {
  match_sets = record { path = paths; method = []; host = host_matcher hostname } ∷ [];
  handle = basic_auth accounts ∷ discovery base_path entries ∷ [];
  terminal = true;
}

-- `httpsRedirectRoute`
unfoldable pub https_redirect_route : Encoder → Text → ℕ → Route
https_redirect_route encoder hostname https_port =
    let redirect_host =
      if https_port == 443 then hostname else hostname ++ (b':' ∷ encoder.itoa https_port) in
    record {
      match_sets = record { path = []; method = []; host = hostname ∷ [] } ∷ [];
      handle =
          static_response 308 (
            (
              codes "Location",
              (codes "https://" ++ (redirect_host ++ codes "{http.request.uri}")) ∷ [],
            )
            ∷ [])
          ∷ [];
      terminal = true;
    }

abbrev pub read_methods : List Text
read_methods = codes "GET" ∷ codes "HEAD" ∷ codes "OPTIONS" ∷ codes "PROPFIND" ∷ []

-- An account and an entry that it may see: an assignment to `discoveryAccounts` and an append to
-- `discoveryEntries`.
pub record Grant : Type 0 where
  pub account : Account
  pub entry : DiscoveryEntry

-- What the loop over the shares appends.
pub record Output : Type 0 where
  pub routes : List Route
  pub grants : List Grant
  pub warnings : List Text

abbrev pub nothing : Output
nothing = record { routes = []; grants = []; warnings = [] }

abbrev pub and_then : Output → Output → Output
and_then a b = record {
  routes = a.routes ++ b.routes;
  grants = a.grants ++ b.grants;
  warnings = a.warnings ++ b.warnings;
}

-- A route where there are accounts.
abbrev pub route_for : List Account → (List Account → Route) → List Route
route_for [] route = []
route_for (a ∷ accounts) route = route (a ∷ accounts) ∷ []

-- The warning where there are no accounts.
abbrev pub warning_for : List Account → Text → List Text
warning_for [] slug = (codes "share " ++ (slug ++ codes " has no authorized users")) ∷ []
warning_for (a ∷ accounts) slug = []

-- The end of the loop's body, once the accounts are known.
unfoldable pub share_output : (base hostname : Text) → Share → List Account × List Account → Output
unfolding join_public_path permission_route
share_output base hostname s (read, write) =
    let prefix = join_public_path base s.slug in
    let paths = prefix ∷ (prefix ++ codes "/*") ∷ [] in
    record {
      routes =
          route_for read
            (λ accounts. permission_route paths read_methods accounts s.path prefix hostname)
          ++ route_for write
              (λ accounts. permission_route paths [] accounts s.path prefix hostname);
      grants =
          map (λ a. record { account = a; entry = record { slug = s.slug; name = s.name } }) read;
      warnings = warning_for read s.slug;
    }

module _ ⦃tables : CaseTables⦄ where
  -- The body of the loop for one share that has passed its checks.
  unfoldable pub compile_share :
      (base hostname : Text) → List User → ShareWithPermissions → Result CompileError Output
  unfolding compile_accounts share_output
  compile_share base hostname users item =
      if item.share.enabled
      then (do
        accounts ← compile_accounts item users
        ok (share_output base hostname item.share accounts))
      else ok nothing

  -- The loop over the shares; `ids` and `slugs` are those before.
  unfoldable pub compile_shares :
      (base hostname : Text)
      → List User
      → (ids slugs : List Text) → List ShareWithPermissions
      → Result CompileError Output
  unfolding compile_share
  compile_shares base hostname users ids slugs [] = ok nothing
  compile_shares base hostname users ids slugs (item ∷ shares) = do
    wrap (λ e. invalid_input (share item.share.id e)) (validate_share item.share)
    reject (seen_in item.share.id ids) (invalid_input (duplicate_share_id item.share.id))
    reject (seen_in item.share.slug slugs) (invalid_input (duplicate_share_slug item.share.slug))
    output ← compile_share base hostname users item
    rest ← compile_shares base hostname users (item.share.id ∷ ids) (item.share.slug ∷ slugs) shares
    ok (and_then output rest)

-- The keys of `discoveryAccounts`, each once.
unfoldable pub usernames : List Grant → List Text
unfolding text_eq
usernames [] = []
usernames (g ∷ grants) =
    let rest = usernames grants in
    if seen_in g.account.username rest then rest else g.account.username ∷ rest

-- `discoveryAccounts[username]`: the last assignment counts.
unfoldable pub account_for : Text → List Grant → Option Account
unfolding text_eq
account_for username [] = none
account_for username (g ∷ grants) = elim (account_for username grants) [
  | some later ↦ some later
  | none ↦ if text_eq g.account.username username then some g.account else none
]

abbrev pub entry_less : DiscoveryEntry → DiscoveryEntry → Bool
entry_less a b = if text_eq a.slug b.slug then text_lt a.name b.name else text_lt a.slug b.slug

-- `discoveryEntries[username]`, before it is sorted.
unfoldable pub entries_for : Text → List Grant → List DiscoveryEntry
unfolding text_eq
entries_for username [] = []
entries_for username (g ∷ grants) =
    let rest = entries_for username grants in
    if text_eq g.account.username username then g.entry ∷ rest else rest

abbrev pub with_account : Option Account → List Account → List Account
with_account none accounts = accounts
with_account (some a) accounts = a ∷ accounts

unfoldable pub discovery_accounts : List Grant → List Text → List Account
unfolding account_for
discovery_accounts grants [] = []
discovery_accounts grants (username ∷ names) =
    with_account (account_for username grants) (discovery_accounts grants names)

unfoldable pub discovery_entries : List Grant → List Text → List (Text × List DiscoveryEntry)
unfolding entries_for sort_slice text_lt
discovery_entries grants names =
    map (λ username. (username, sort_slice entry_less (entries_for username grants))) names

abbrev pub root_path : Text → Text
root_path base = let trimmed = trim_suffix_slash base in if is_empty trimmed then slash else trimmed

abbrev pub root_paths : Text → List Text
root_paths root = if text_eq root slash then root ∷ [] else root ∷ (root ++ slash) ∷ []

-- The index of the shares goes before the other routes, where there is an account.
unfoldable pub with_discovery : (base hostname : Text) → List Grant → List Route → List Route
unfolding usernames discovery_accounts discovery_entries discovery_route sort_slice text_lt
with_discovery base hostname [] routes = routes
with_discovery base hostname (g ∷ grants) routes =
    let names = sort_slice text_lt (usernames (g ∷ grants)) in
    discovery_route (root_paths (root_path base)) (discovery_accounts (g ∷ grants) names)
      (discovery_entries (g ∷ grants) names) (root_path base) hostname
    ∷ routes
