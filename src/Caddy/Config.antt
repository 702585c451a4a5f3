-- ===== src/Caddy/Config.antt =====
-- The types of core/internal/caddy/compiler.go that are encoded as Caddy's JSON. A handler's constructor
-- stands for its fixed "handler" string, `basic_auth` for the one provider "http_basic" that the
-- program uses; a Go map is the list of its entries in the order of its keys, as it is encoded; an
-- empty list is what `omitempty` leaves out.
use dav_deck.Common.{ℕ, Bool, List, Option}
use dav_deck.Common.Text.{Text}
use dav_deck.Domain.Revision.{Bytes}

pub record Account : Type 0 where
  pub username : Text
  pub password : Text

pub record DiscoveryEntry : Type 0 where
  pub slug : Text
  pub name : Text

pub record BasicAuth : Type 0 where
  pub algorithm : Text
  pub accounts : List Account

pub data Handler : Type 0 where
  authentication : BasicAuth → Handler
  webdav : (root prefix : Text) → Handler
  discovery : (base_path : Text) → List (Text × List DiscoveryEntry) → Handler
  static_response : (status_code : ℕ) → (headers : List (Text × List Text)) → Handler

pub record MatcherSet : Type 0 where
  pub path : List Text
  pub method : List Text
  pub host : List Text

pub record Route : Type 0 where
  pub match_sets : List MatcherSet
  pub handle : List Handler
  pub terminal : Bool

pub record AutomaticHttps : Type 0 where
  pub disabled : Bool
  pub disable_redirects : Bool

pub record TlsConnectionPolicy : Type 0 where
  pub sni : Option (List Text)
  pub any_tag : Option (List Text)

pub record HttpServer : Type 0 where
  pub listen : List Text
  pub routes : List Route
  pub tls_connection_policies : List TlsConnectionPolicy
  pub automatic_https : Option AutomaticHttps

pub record HttpApp : Type 0 where
  pub http_port : ℕ
  pub https_port : ℕ
  pub servers : List (Text × HttpServer)

-- `dns_provider` is the provider of the DNS challenge, where there is one.
pub record TlsIssuer : Type 0 where
  pub module_name : Text
  pub dns_provider : Option (List (Text × Text))

pub record TlsAutomationPolicy : Type 0 where
  pub subjects : List Text
  pub issuers : List TlsIssuer

pub record TlsFileLoader : Type 0 where
  pub certificate : Text
  pub key : Text
  pub tags : List Text

pub record TlsApp : Type 0 where
  pub automation : Option (List TlsAutomationPolicy)
  pub certificates : Option (List TlsFileLoader)

-- Each certificate authority with its `install_trust`.
abbrev pub PkiApp : Type 0
PkiApp = List (Text × Bool)

pub record Config : Type 0 where
  pub admin_listen : Text
  pub http : HttpApp
  pub tls : Option TlsApp
  pub pki : Option PkiApp

-- `json.MarshalIndent`, `strconv.Itoa`, and whether `net.ParseIP` gives an address.
pub record Encoder : Type 0 where
  pub marshal_indent : Config → Bytes
  pub itoa : ℕ → Text
  pub is_ip : Text → Bool
