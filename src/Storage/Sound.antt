-- ===== src/Storage/Sound.antt =====
-- The constraints of core/migrations on the tables `users`, `shares` and `share_permissions`.
pub mod Lookup
pub mod Operations
pub mod PermissionRows
pub mod ShareRows
pub mod UserRows
use dav_deck.Common.{◌≡◌, refl, Bool, true, false, not, ◌&&◌, List, [], ◌∷◌, any, all}
use dav_deck.Common.Text.{Text, text_eq}
use dav_deck.Common.Keys.{is_distinct}
use dav_deck.Domain.Share.{SharePermission}
use dav_deck.Domain.Id.{EntityId}
use dav_deck.Domain.User.{User}
use dav_deck.Domain.Share.{Share}
use dav_deck.Storage.Database.{Tables, Database}
use dav_deck.Storage.Users
use dav_deck.Storage.Shares
use dav_deck.Storage.Permissions.{has_key}

-- The share and the user of the permission exist.
abbrev pub refers : List Share → List User → SharePermission → Bool
refers shares users p = any (Shares.has_id p.share_id) shares && any (Users.has_id p.user_id) users

-- No two rows have both the share and the user in common.
abbrev pub has_distinct_keys : List SharePermission → Bool
has_distinct_keys [] = true
has_distinct_keys (p ∷ rows) =
    not (any (has_key p.share_id p.user_id) rows) && has_distinct_keys rows

-- Primary keys, unique columns and references.
pub record IsSound (db : Database) : Type 0 where
  pub user_ids : is_distinct (λ u. u.id) db.tables.users ≡ true
  pub usernames : is_distinct (λ u. u.username_normalized) db.tables.users ≡ true
  pub share_ids : is_distinct (λ s. s.id) db.tables.shares ≡ true
  pub share_slugs : is_distinct (λ s. s.slug) db.tables.shares ≡ true
  pub references : all (refers db.tables.shares db.tables.users) db.tables.share_permissions ≡ true
  pub permission_keys : has_distinct_keys db.tables.share_permissions ≡ true
