-- ===== src/Storage/Sound/ShareRows.antt =====
-- The operations of core/internal/storage/share_repository.go and the constraints of the schema.
use dav_deck.Common.{
  ◌≡◌, refl, sym, ap, ◌∙◌, subst, Bool, true, false, Bool-cases, inl, inr, not, ◌&&◌, List, [], ◌∷◌,
  ◌++◌, any, all, all_weaken, all_ext, if◌then◌else◌, arith,
}
use dav_deck.Common.Text.{Text, text_eq}
use dav_deck.Common.Text.Laws.{text_eq_iff, text_eq_sym}
use dav_deck.Common.Keys.{is_distinct, same_key}
use dav_deck.Domain.Id.{EntityId}
use dav_deck.Domain.Timestamp.{Timestamp}
use dav_deck.Domain.User.{User}
use dav_deck.Domain.Share.{Share, SharePermission}
use dav_deck.Storage.Database.{Database}
use dav_deck.Storage.Database.Symbolic.{
  From, From-statement, From-gets, From-fail_if, From-modify, From-end_modify, From-write,
  From-end_fail_if,
}
use dav_deck.Storage.Rows.{delete_where, update_where}
use dav_deck.Storage.Rows.Laws.{
  any-append, all-delete_where, all-left, is_distinct-append, is_distinct-delete_where,
  is_distinct-update_where, any_key-update_where, any_key-delete_where,
}
use dav_deck.Storage.Shares.{
  has_id, with_shares, without_share, set_columns, create, update, delete,
}
use dav_deck.Storage.Sound.{IsSound, refers}
use dav_deck.Storage.Sound.PermissionRows.{keys-delete_where, if-IsSound}

with_share-IsSound :
    (now : Timestamp) (s : Share) (db : Database)
    → any (λ other. text_eq other.slug s.slug) db.tables.shares ≡ false
    → any (has_id s.id) db.tables.shares ≡ false
    → IsSound db
    → IsSound (with_shares now (λ shares. shares ++ s ∷ []) db)
with_share-IsSound now s db new_slug new_id sound = record {
  user_ids = sound.user_ids;
  usernames = sound.usernames;
  share_ids = is_distinct-append (λ s. s.id) db.tables.shares s new_id sound.share_ids;
  share_slugs = is_distinct-append (λ s. s.slug) db.tables.shares s new_slug sound.share_slugs;
  references =
      all_weaken (refers db.tables.shares db.tables.users)
        (refers (db.tables.shares ++ s ∷ []) db.tables.users)
        (λ p h. ground (arith, any-append (has_id p.share_id) db.tables.shares s))
        db.tables.share_permissions sound.references;
  permission_keys = sound.permission_keys;
}

pub create-IsSound :
    (now : Timestamp) (s : Share) (db : Database)
    → IsSound db
    → From db (create now s) (λ _ after. IsSound after)
unfolding create
create-IsSound now s db sound = From-statement _ _ _ λ _. From-gets _ _ _ _ (
    From-fail_if _ _ _ _ _ λ new_slug _. From-gets _ _ _ _ (
      From-fail_if _ _ _ _ _
        λ new_id _. From-end_modify _ _ _ λ _. with_share-IsSound now s db new_slug new_id sound))

still_refer :
    (id : EntityId) (shares : List Share) (users : List User) (rows : List SharePermission)
    → all (refers shares users) rows ≡ true
    → all (λ p. not (text_eq p.share_id id)) rows ≡ true
    → all (refers (delete_where (has_id id) shares) users) rows ≡ true
still_refer id shares users [] h k = refl
still_refer id shares users (p ∷ rows) h k = ground (
  arith,
  still_refer id shares users rows,
  any_key-delete_where (λ (s : Share). s.id) id p.share_id shares,
)

without_share-IsSound :
    (now : Timestamp) (id : EntityId) (db : Database)
    → IsSound db
    → IsSound (without_share now id db)
unfolding without_share
without_share-IsSound now id db sound = record {
  user_ids = sound.user_ids;
  usernames = sound.usernames;
  share_ids = is_distinct-delete_where (λ s. s.id) (has_id id) db.tables.shares sound.share_ids;
  share_slugs =
      is_distinct-delete_where (λ s. s.slug) (has_id id) db.tables.shares sound.share_slugs;
  references =
      still_refer id db.tables.shares db.tables.users
        (delete_where (λ p. text_eq p.share_id id) db.tables.share_permissions)
        (all-delete_where (refers db.tables.shares db.tables.users) (λ p. text_eq p.share_id id)
          db.tables.share_permissions sound.references)
        (all-left (λ p. text_eq p.share_id id) db.tables.share_permissions);
  permission_keys =
      keys-delete_where (λ p. text_eq p.share_id id) db.tables.share_permissions
        sound.permission_keys;
}

pub delete-IsSound :
    (now : Timestamp) (id : EntityId) (db : Database)
    → IsSound db
    → From db (delete now id) (λ _ after. IsSound after)
unfolding delete
delete-IsSound now id db sound = From-gets _ _ _ _ (
    From-write _ _ _ _ λ _. From-end_fail_if _ _ _ _ λ _ _.
      if-IsSound (any (has_id id) db.tables.shares) (without_share now id db) db
        (without_share-IsSound now id db sound) sound)

-- Another row has the slug.
abbrev taken : Share → Share → Bool
taken new other = text_eq other.slug new.slug && not (has_id new.id other)

abbrev set_rows : Share → List Share → List Share
set_rows new rows = update_where (has_id new.id) (set_columns new) rows

same_slug-set_rows :
    (new : Share) (slug : Text) (rows : List Share)
    → text_eq slug new.slug ≡ false
    → any (λ s. text_eq slug s.slug) rows ≡ false
    → any (λ s. text_eq slug s.slug) (set_rows new rows) ≡ false
unfolding update_where
same_slug-set_rows new slug [] h k = refl
same_slug-set_rows new slug (s ∷ rows) h k = ground (arith, same_slug-set_rows new slug rows)

no_row :
    (new : Share) (rows : List Share) → any (has_id new.id) rows ≡ false → set_rows new rows ≡ rows
unfolding update_where
no_row new [] h = refl
no_row new (s ∷ rows) h = ground (arith, no_row new rows)

not_taken :
    (new : Share) (rows : List Share)
    → any (has_id new.id) rows ≡ false
    → any (taken new) rows ≡ false
    → any (λ s. text_eq new.slug s.slug) rows ≡ false
not_taken new [] h k = refl
not_taken new (s ∷ rows) h k = ground (arith, not_taken new rows, text_eq_sym new.slug s.slug)

other_ids :
    (s new : Share) (rows : List Share)
    → text_eq s.id new.id ≡ true
    → any (same_key (λ (s : Share). s.id) s) rows ≡ false
    → any (has_id new.id) rows ≡ false
other_ids s new [] h k = refl
other_ids s new (q ∷ rows) h k = ground (
  arith,
  other_ids s new rows,
  text_eq_iff s.id new.id,
  text_eq_iff s.id q.id,
  text_eq_iff q.id new.id,
  text_eq_sym s.id q.id,
)

slugs-first :
    (new s : Share) (rows : List Share)
    → any (has_id new.id) rows ≡ false
    → is_distinct (λ s. s.slug) rows ≡ true
    → any (taken new) rows ≡ false
    → is_distinct (λ s. s.slug) (set_columns new s ∷ set_rows new rows) ≡ true
slugs-first new s rows gone k t =
    subst (λ rows'. is_distinct (λ s. s.slug) (set_columns new s ∷ rows') ≡ true)
      (sym (no_row new rows gone)) (ground (arith, not_taken new rows))

slugs-set_rows :
    (new : Share) (rows : List Share)
    → is_distinct (λ s. s.id) rows ≡ true
    → is_distinct (λ s. s.slug) rows ≡ true
    → any (taken new) rows ≡ false
    → is_distinct (λ s. s.slug) (set_rows new rows) ≡ true
unfolding update_where
slugs-set_rows new [] h k t = refl
slugs-set_rows new (s ∷ rows) h k t = elim (Bool-cases (text_eq s.id new.id)) [
  | inl same ↦
      subst
        (λ b.
          is_distinct (λ s. s.slug) ((if b then set_columns new s else s) ∷ set_rows new rows)
          ≡ true)
        (sym same)
        (slugs-first new s rows (other_ids s new rows same (ground arith)) (ground arith)
          (ground arith))
  | inr other ↦
      subst
        (λ b.
          is_distinct (λ s. s.slug) ((if b then set_columns new s else s) ∷ set_rows new rows)
          ≡ true)
        (sym other) (ground (arith, same_slug-set_rows new s.slug rows, slugs-set_rows new rows))
]

set_rows-IsSound :
    (now : Timestamp) (new : Share) (db : Database)
    → any (taken new) db.tables.shares ≡ false
    → IsSound db
    → IsSound (with_shares now (set_rows new) db)
set_rows-IsSound now new db free sound = record {
  user_ids = sound.user_ids;
  usernames = sound.usernames;
  share_ids =
      is_distinct-update_where (λ s. s.id) (has_id new.id) (set_columns new) (λ s. refl)
        db.tables.shares
      ∙ sound.share_ids;
  share_slugs = slugs-set_rows new db.tables.shares sound.share_ids sound.share_slugs free;
  references =
      all_ext _ (refers db.tables.shares db.tables.users)
        (λ p.
          ap (λ b. b && any (λ u. text_eq u.id p.user_id) db.tables.users)
            (any_key-update_where (λ s. s.id) p.share_id (has_id new.id) (set_columns new)
              (λ s. refl) db.tables.shares))
        db.tables.share_permissions
      ∙ sound.references;
  permission_keys = sound.permission_keys;
}

changed-IsSound :
    (now : Timestamp) (s : Share) (exists : Bool) (db : Database)
    → (exists && any (taken s) db.tables.shares) ≡ false
    → IsSound db
    → IsSound (if exists then with_shares now (set_rows s) db else db)
changed-IsSound now s true db free sound = set_rows-IsSound now s db free sound
changed-IsSound now s false db free sound = sound

pub update-IsSound :
    (now : Timestamp) (s : Share) (db : Database)
    → IsSound db
    → From db (update now s) (λ _ after. IsSound after)
unfolding update
update-IsSound now s db sound = From-statement _ _ _ λ _. From-gets _ _ _ _ (
    From-gets _ _ _ _ (
      From-fail_if _ _ _ _ _ λ free _. From-modify _ _ _ _ λ _.
        From-end_fail_if _ _ _ _
          λ _ _. changed-IsSound now s (any (has_id s.id) db.tables.shares) db free sound))
