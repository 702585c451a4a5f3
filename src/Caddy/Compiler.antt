-- ===== src/Caddy/Compiler.antt =====
-- `Compiler.Compile` of core/internal/caddy/compiler.go. JSON and SHA-256 are the standard library's:
-- the fields of `Encoder` and `Digest`.
pub mod Authorized
pub mod Succeeds
use dav_deck.Common.{
  ℕ, Bool, true, false, List, [], ◌∷◌, ◌++◌, Option, none, some, Result, ok, err, ◌>>◌, ◌>>=◌,
  reject, wrap,
}
use dav_deck.Common.Text.{Text, CaseTables, codes, text_eq, text_lt}
use dav_deck.Common.Sorting.{sort_slice}
use dav_deck.Domain.Id.{EntityId}
use dav_deck.Domain.User.{User}
use dav_deck.Domain.Settings.{ServerSettings, validate_server_settings}
use dav_deck.Domain.Tls.{TlsProfile, TlsMode, internal}
use dav_deck.Domain.Dns.{DnsProviderCredential, seen_in, validate_dns_provider_credential}
use dav_deck.Domain.Revision.{Bytes, Digest}
use dav_deck.Domain.Input.{
  ShareWithPermissions, RuntimeConfigInput, InputError, settings, dns_provider,
  duplicate_provider_id, validate_profile, validate_users,
}
use dav_deck.Domain.Snapshot.{by_keys}
use dav_deck.App.World.{CompiledConfig}
use dav_deck.Caddy.Config.{
  Encoder, Config, HttpServer, AutomaticHttps, static_response, MatcherSet, Route,
}
use dav_deck.Caddy.Accounts.{CompileError, invalid_input}
use dav_deck.Caddy.Routes.{Output, compile_shares, with_discovery, https_redirect_route}
use dav_deck.Caddy.Tls.{TlsOutput, compile_tls}

-- The comparisons of the two calls of `sort.Slice`.
abbrev pub user_less : User → User → Bool
user_less a b = by_keys a.username_normalized a.id b.username_normalized b.id

abbrev pub share_less : ShareWithPermissions → ShareWithPermissions → Bool
share_less a b = by_keys a.share.slug a.share.id b.share.slug b.share.id

module _ ⦃tables : CaseTables⦄ where
  -- The loop over the providers; `ids` are those before.
  unfoldable pub check_providers :
      List EntityId → List DnsProviderCredential → Result InputError (Unit {0})
  check_providers ids [] = ok tt
  check_providers ids (p ∷ rest) = do
    wrap (dns_provider p.id) (validate_dns_provider_credential p)
    reject (seen_in p.id ids) (duplicate_provider_id p.id)
    check_providers (p.id ∷ ids) rest

  -- The checks before the loop over the shares, and the loop over the users.
  unfoldable pub check_entities : RuntimeConfigInput → Result InputError (Unit {0})
  unfolding sort_slice text_eq text_lt
  check_entities input = do
    wrap settings (validate_server_settings input.server_settings)
    check_providers [] input.dns_provider_credentials
    validate_profile input.tls_profile
    validate_users [] [] (sort_slice user_less input.users)

abbrev pub hostname_of : Option TlsProfile → Text
hostname_of none = []
hostname_of (some profile) = profile.hostname

-- The last route of the server where there is a hostname.
abbrev pub not_found_route : Text → Route
not_found_route hostname = record {
  match_sets = record { path = []; method = []; host = hostname ∷ [] } ∷ [];
  handle = static_response 404 [] ∷ [];
  terminal = true;
}

-- `":" + strconv.Itoa(port)`
abbrev pub listen_on : Encoder → ℕ → List Text
listen_on encoder port = (b':' ∷ encoder.itoa port) ∷ []

abbrev pub admin_address : Text
admin_address = codes "127.0.0.1:2019"

-- The configuration without a TLS profile.
unfoldable pub plain_config : Encoder → ServerSettings → List Route → Config
plain_config encoder s routes = record {
  admin_listen = admin_address;
  http = record {
    http_port = s.http_port;
    https_port = s.https_port;
    servers =
        (
          codes "davdeck",
          record {
            listen = listen_on encoder s.http_port;
            routes = routes;
            tls_connection_policies = [];
            automatic_https = none;
          },
        )
        ∷ [];
  };
  tls = none;
  pki = none;
}

-- `configuration.Apps.PKI`: only the internal mode has an authority, and does not install its trust.
abbrev pub pki_of : TlsMode → Option (List (Text × Bool))
pki_of internal = some ((codes "local", false) ∷ [])
pki_of _ = none

-- The configuration with a TLS profile: the server listens on the HTTPS port, and a second one
-- redirects to it.
unfoldable pub tls_config : Encoder → ServerSettings → TlsProfile → List Route → TlsOutput → Config
unfolding https_redirect_route
tls_config encoder s profile routes (app, policies) = record {
  admin_listen = admin_address;
  http = record {
    http_port = s.http_port;
    https_port = s.https_port;
    servers =
        (
          codes "davdeck",
          record {
            listen = listen_on encoder s.https_port;
            routes = routes ++ (not_found_route profile.hostname ∷ []);
            tls_connection_policies = policies;
            automatic_https = some (record { disabled = false; disable_redirects = true });
          },
        )
        ∷ (
          codes "davdeck-http-redirect",
          record {
            listen = listen_on encoder s.http_port;
            routes = https_redirect_route encoder profile.hostname s.https_port ∷ [];
            tls_connection_policies = [];
            automatic_https = some (record { disabled = true; disable_redirects = false });
          },
        )
        ∷ [];
  };
  tls = app;
  pki = pki_of profile.mode;
}

module _ ⦃tables : CaseTables⦄ where
  unfoldable pub configure :
      Encoder
      → ServerSettings
      → Option TlsProfile
      → List DnsProviderCredential
      → List Route
      → Result CompileError Config
  unfolding compile_tls plain_config tls_config
  configure encoder s none providers routes = ok (plain_config encoder s routes)
  configure encoder s (some profile) providers routes = do
    output ← compile_tls encoder profile providers
    ok (tls_config encoder s profile routes output)

  -- The loop over the shares in their order.
  unfoldable pub compile_outputs : RuntimeConfigInput → Result CompileError Output
  unfolding compile_shares sort_slice text_eq text_lt
  compile_outputs input =
      compile_shares input.server_settings.public_base_path (hostname_of input.tls_profile)
        (sort_slice user_less input.users) [] [] (sort_slice share_less input.shares)

  -- The configuration, before it is encoded, and the warnings.
  unfoldable pub build : Encoder → RuntimeConfigInput → Result CompileError (Config × List Text)
  unfolding check_entities compile_outputs with_discovery configure
  build encoder input = do
    wrap invalid_input (check_entities input)
    output ← compile_outputs input
    configuration ←
        configure encoder input.server_settings input.tls_profile input.dns_provider_credentials (
          with_discovery input.server_settings.public_base_path (hostname_of input.tls_profile)
            output.grants output.routes)
    ok (configuration, output.warnings)

-- The end of `Compile`: the body, its digest and the warnings.
unfoldable pub encode : ⦃digest : Digest⦄ → Encoder → Config × List Text → CompiledConfig
encode ⦃digest = digest⦄ encoder (configuration, warnings) =
    let body = encoder.marshal_indent configuration ++ (b'\n' ∷ []) in
    record { json = body; sha256 = digest.sha256 body; warnings = warnings }

module _ ⦃tables : CaseTables⦄ ⦃digest : Digest⦄ where
  -- `Compiler.Compile`
  unfoldable pub compile : Encoder → RuntimeConfigInput → Result CompileError CompiledConfig
  unfolding build encode
  compile encoder input = do built ← build encoder input; ok (encode encoder built)
