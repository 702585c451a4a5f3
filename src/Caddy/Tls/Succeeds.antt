-- ===== src/Caddy/Tls/Succeeds.antt =====
-- When `compileTLS` of core/internal/caddy/compiler.go succeeds.
use dav_deck.Common.{
  ◌≡◌, refl, ◌∙◌, Bool, true, false, not, List, [], ◌∷◌, map, all, Option, some, none, Result, ok,
  err, reject, ◌>>◌, ◌||◌, ltb, Bool-cases, inl, inr, is_ok, is_ok-bind, arith,
}
use dav_deck.Common.Text.{CaseTables, text_eq, is_empty, trim_space, byte_length}
use dav_deck.Domain.Validation.{
  invalid, invalid_dns_provider_credential, invalid_dns_provider, contains_control,
}
use dav_deck.Domain.Timestamp.{validate_time_range}
use dav_deck.Common.Text.Laws.{text_eq_sym}
use dav_deck.Domain.Id.{EntityId, validate_id}
use dav_deck.Domain.Tls.{TlsProfile, TlsMode, TlsChallenge, dns, automatic, internal, custom}
use dav_deck.Domain.Dns.{
  DnsProviderCredential, DnsProviderType, cloudflare, tencent_cloud, dnspod, alidns,
  dns_provider_type_valid, validate_dns_provider_credential, validate_zones, seen_in,
}
use dav_deck.Domain.Input.Consistent.{has_its_provider, names_provider}
use dav_deck.DnsProvider
use dav_deck.Caddy.Config.{Encoder}
use dav_deck.Caddy.Tls.{provider_by_id, adapter_or, compile_dns, compile_mode, compile_tls}

supported :
    (p : DnsProviderCredential) (t : DnsProviderType)
    → dns_provider_type_valid t ≡ true
    → is_ok (adapter_or p (DnsProvider.for t)) ≡ true
unfolding DnsProvider.for dns_provider_type_valid
supported p cloudflare h = refl
supported p tencent_cloud h = refl
supported p dnspod h = refl
supported p alidns h = refl
supported p (DnsProviderType.other _) h = cc

-- The third of three checks.
third :
    {E : Type 0} (a b : Result E (Unit {0})) (test : Bool) (e : E) (n : Result E (Unit {0}))
    → is_ok (a >> (b >> (reject (not test) e >> n))) ≡ true
    → test ≡ true
third (err _) b test e n h = cc
third (ok _) (err _) test e n h = cc
third (ok _) (ok _) true e n h = refl
third (ok _) (ok _) false e n h = cc

module _ ⦃tables : CaseTables⦄ where
  typed :
      (p : DnsProviderCredential)
      → is_ok (validate_dns_provider_credential p) ≡ true
      → dns_provider_type_valid p.provider ≡ true
  unfolding validate_dns_provider_credential
  typed p h =
      third (validate_id "id" p.id)
        (reject
          (is_empty p.name
            || not (text_eq p.name (trim_space p.name))
            || contains_control p.name
            || ltb 128 (byte_length p.name))
          (invalid invalid_dns_provider_credential "name"
            "must be a non-empty name without control characters"))
        (dns_provider_type_valid p.provider)
        (invalid invalid_dns_provider "provider"
          "must be cloudflare, tencentcloud, dnspod, or alidns")
        (validate_zones [] p.allowed_zones
          >> validate_time_range "created_at" p.created_at "updated_at" p.updated_at)
        h

  known_provider :
      (id : EntityId) (providers : List DnsProviderCredential)
      → seen_in id (map (λ p. p.id) providers) ≡ true
      → all (λ p. is_ok (validate_dns_provider_credential p)) providers ≡ true
      → (p : DnsProviderCredential) × (provider_by_id id providers ≡ some p)
        × (dns_provider_type_valid p.provider ≡ true)
  unfolding provider_by_id
  known_provider id [] h k = cc
  known_provider id (p ∷ providers) h k = elim (Bool-cases (text_eq p.id id)) [
    | inl same ↦ (p, rw same refl, typed p (ground arith))
    | inr other ↦
        let (q, found, valid) =
          known_provider id providers (ground (arith, text_eq_sym p.id id)) (ground arith) in
        (q, rw other found, valid)
  ]

  compile_dns_ok :
      (profile : TlsProfile) (id : Option EntityId) (providers : List DnsProviderCredential)
      → names_provider dns id (map (λ p. p.id) providers) ≡ true
      → all (λ p. is_ok (validate_dns_provider_credential p)) providers ≡ true
      → is_ok (compile_dns (record profile { dns_provider_id = id }) providers) ≡ true
  unfolding compile_dns
  compile_dns_ok profile none providers h k = cc
  compile_dns_ok profile (some id) providers h k =
      let (p, found, valid) = known_provider id providers h k in
      rw found (
        is_ok-bind (adapter_or p (DnsProvider.for p.provider)) _ true (λ _ _. refl)
        ∙ rw (supported p p.provider valid) refl)

  -- The profile compiles where it refers to one of the providers and these are valid.
  compile_mode_ok :
      (encoder : Encoder) (mode : TlsMode) (challenge : TlsChallenge) (profile : TlsProfile)
      (providers : List DnsProviderCredential)
      → names_provider challenge profile.dns_provider_id (map (λ p. p.id) providers) ≡ true
      → all (λ p. is_ok (validate_dns_provider_credential p)) providers ≡ true
      → is_ok (compile_mode encoder mode (record profile { challenge = challenge }) providers)
        ≡ true
  unfolding compile_mode
  compile_mode_ok encoder internal challenge profile providers h k = refl
  compile_mode_ok encoder custom challenge profile providers h k = refl
  compile_mode_ok encoder (TlsMode.other _) challenge profile providers h k = refl
  compile_mode_ok encoder automatic dns profile providers h k =
      compile_dns_ok (record profile { challenge = dns }) profile.dns_provider_id providers h k
  compile_mode_ok encoder automatic TlsChallenge.empty profile providers h k = refl
  compile_mode_ok encoder automatic TlsChallenge.auto profile providers h k = refl
  compile_mode_ok encoder automatic (TlsChallenge.other _) profile providers h k = refl

  pub compile_tls_ok :
      (encoder : Encoder) (profile : TlsProfile) (providers : List DnsProviderCredential)
      → has_its_provider (map (λ p. p.id) providers) (some profile) ≡ true
      → all (λ p. is_ok (validate_dns_provider_credential p)) providers ≡ true
      → is_ok (compile_tls encoder profile providers) ≡ true
  unfolding compile_tls
  compile_tls_ok encoder profile providers h k =
      compile_mode_ok encoder profile.mode profile.challenge profile providers h k
