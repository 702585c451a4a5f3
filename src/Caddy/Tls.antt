-- ===== src/Caddy/Tls.antt =====
-- `compileTLS` of core/internal/caddy/compiler.go.
pub mod Succeeds
use dav_deck.Common.{
  Bool, true, false, List, [], ◌∷◌, Option, none, some, Result, ok, err, ◌>>=◌, if◌then◌else◌,
}
use dav_deck.Common.Text.{Text, CaseTables, codes, text_eq}
use dav_deck.Domain.Id.{EntityId}
use dav_deck.Domain.Tls.{TlsProfile, TlsMode, TlsChallenge, automatic, internal, custom, is_dns}
use dav_deck.Domain.Dns.{DnsProviderCredential}
use dav_deck.Domain.Input.{no_provider, unknown_provider}
use dav_deck.DnsProvider
use dav_deck.DnsProvider.{Adapter, caddy_provider}
use dav_deck.Caddy.Config.{
  Encoder, TlsApp, TlsAutomationPolicy, TlsConnectionPolicy, TlsFileLoader, TlsIssuer,
}
use dav_deck.Caddy.Accounts.{CompileError, invalid_input, unsupported_provider}

-- `providers[id]`
unfoldable pub provider_by_id : EntityId → List DnsProviderCredential → Option DnsProviderCredential
unfolding text_eq
provider_by_id id [] = none
provider_by_id id (p ∷ providers) = if text_eq p.id id then some p else provider_by_id id providers

abbrev davdeck_tag : List Text
davdeck_tag = codes "davdeck" ∷ []

-- An automation policy for the hostname, with one issuer.
abbrev pub automation_app : Text → TlsIssuer → TlsApp
automation_app hostname issuer = record {
  automation = some (record { subjects = hostname ∷ []; issuers = issuer ∷ [] } ∷ []);
  certificates = none;
}

abbrev pub TlsOutput : Type 0
TlsOutput = Option TlsApp × List TlsConnectionPolicy

abbrev adapter_or : DnsProviderCredential → Option Adapter → Result CompileError Adapter
adapter_or p none = err (unsupported_provider p.provider)
adapter_or p (some a) = ok a

abbrev found_provider :
    EntityId → Option DnsProviderCredential → Result CompileError DnsProviderCredential
found_provider id none = err (invalid_input (unknown_provider id))
found_provider id (some p) = ok p

referenced :
    Option EntityId → List DnsProviderCredential → Result CompileError DnsProviderCredential
referenced none providers = err (invalid_input no_provider)
referenced (some id) providers = found_provider id (provider_by_id id providers)

module _ ⦃tables : CaseTables⦄ where
  -- The automatic mode under the DNS challenge.
  unfoldable pub compile_dns :
      TlsProfile → List DnsProviderCredential → Result CompileError TlsOutput
  unfolding referenced
  compile_dns profile providers = do
    p ← referenced profile.dns_provider_id providers
    a ← adapter_or p (DnsProvider.for p.provider)
    ok (
      some (
          automation_app profile.hostname
            (record { module_name = codes "acme"; dns_provider = some (caddy_provider a p.id) })),
      [],
    )

  compile_mode :
      Encoder → TlsMode → TlsProfile → List DnsProviderCredential → Result CompileError TlsOutput
  unfolding compile_dns
  compile_mode encoder internal profile providers = ok (
    some (
        automation_app profile.hostname
          (record { module_name = codes "internal"; dns_provider = none })),
    [],
  )
  compile_mode encoder custom profile providers = ok (
    some (record {
      automation = none;
      certificates = some (
          record {
            certificate = profile.certificate_path;
            key = profile.private_key_path;
            tags = davdeck_tag;
          }
          ∷ []);
    }),
    record {
      sni = if encoder.is_ip profile.hostname then none else some (profile.hostname ∷ []);
      any_tag = some davdeck_tag;
    }
        ∷ [],
  )
  compile_mode encoder automatic profile providers =
      if is_dns profile.challenge then compile_dns profile providers else ok (none, [])
  compile_mode encoder (TlsMode.other _) profile providers = ok (none, [])

  unfoldable pub compile_tls :
      Encoder → TlsProfile → List DnsProviderCredential → Result CompileError TlsOutput
  unfolding compile_mode
  compile_tls encoder profile providers = compile_mode encoder profile.mode profile providers
