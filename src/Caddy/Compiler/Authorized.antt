-- ===== src/Caddy/Compiler/Authorized.antt =====
-- The routes of `Compile` of core/internal/caddy/compiler.go and the permissions of the input.
use dav_deck.Common.{Bool, true, false, ◌&&◌, ◌||◌, List, [], ◌∷◌, all, any, ◌>>=◌}
use dav_deck.Common.Text.{Text, text_eq, codes}
use dav_deck.Domain.User.{User}
use dav_deck.Domain.Share.{SharePermission}
use dav_deck.Domain.Input.{ShareWithPermissions, RuntimeConfigInput, share}
use dav_deck.Caddy.Config.{
  Account, Config, Handler, authentication, webdav, discovery, static_response, MatcherSet, Route,
}
use dav_deck.Caddy.Accounts.Grants.{allows_read, allows_write, is_granted}

-- The methods of WebDAV that read and change nothing.
abbrev pub reading_methods : List Text
reading_methods = codes "GET" ∷ codes "HEAD" ∷ codes "OPTIONS" ∷ codes "PROPFIND" ∷ []

-- The matcher lets only methods pass that read.
abbrev pub only_reads : MatcherSet → Bool
only_reads m = elim m.method [
  | [] ↦ false
  | _ ∷ _ ↦ all (λ method. any (text_eq method) reading_methods) m.method
]

abbrev has_account : List Account → Bool
has_account [] = false
has_account (_ ∷ _) = true

-- The handlers ask for one of the accounts, all of which may access the share so, and then serve
-- its directory.
abbrev pub serve_granted :
    (SharePermission → Bool) → List User → ShareWithPermissions → List Handler → Bool
serve_granted level users item (authentication auth ∷ webdav root prefix ∷ []) =
    text_eq root item.share.path
    && (has_account auth.accounts && all (is_granted level users item.permissions) auth.accounts)
serve_granted level users item _ = false

abbrev pub level_for : (reads_only : Bool) → SharePermission → Bool
level_for true = allows_read
level_for false = allows_write

-- The route serves an enabled share to accounts that may read it, and to accounts that may write it
-- where a method that writes gets through.
abbrev pub serves_granted : List User → Route → ShareWithPermissions → Bool
serves_granted users route item =
    item.share.enabled
    && serve_granted (level_for (all only_reads route.match_sets)) users item route.handle

abbrev serves_share : List User → List ShareWithPermissions → Route → Bool
serves_share users shares route = any (serves_granted users route) shares

-- The handlers serve no directory, and ask for an account before the index of the shares.
abbrev pub serve_no_share : List Handler → Bool
serve_no_share [] = true
serve_no_share (static_response _ _ ∷ handlers) = serve_no_share handlers
serve_no_share (authentication _ ∷ discovery _ _ ∷ []) = true
serve_no_share _ = false

abbrev pub is_authorized : RuntimeConfigInput → Route → Bool
is_authorized input route =
    serve_no_share route.handle || any (serves_granted input.users route) input.shares

abbrev pub are_authorized : RuntimeConfigInput → Config → Bool
are_authorized input c = all (λ server. all (is_authorized input) server.1.routes) c.http.servers
