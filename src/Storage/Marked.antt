-- ===== src/Storage/Marked.antt =====
-- The triggers of core/migrations, which mark the runtime state after each change of the desired state.
use dav_deck.Common.{
  ◌≡◌, refl, sym, ℕ, subst, ◌∙◌, Bool, true, false, ◌⊎◌, inl, inr, any, not, if◌then◌else◌, List,
  [], ◌∷◌, Option, none, some,
}
use dav_deck.Common.Text.{CaseTables}
use dav_deck.Common.Exec.{Exec, gets, fail_if, modify, ◌>>=◌}
use dav_deck.Common.Exec.Keeps.{Keeps, Keeps-gets, Keeps-fail_if, Keeps-raise, Keeps-bind}
use dav_deck.Common.Exec.Steps.{Steps, Steps-modify, Steps-of_Keeps, Steps-bind}
use dav_deck.Domain.Id.{EntityId}
use dav_deck.Domain.Timestamp.{Timestamp}
use dav_deck.Domain.User.{User}
use dav_deck.Domain.Share.{Share, SharePermission}
use dav_deck.Domain.Settings.{ServerSettings}
use dav_deck.Storage.Rows.{scan_user, scan_share, scan_settings, update_where, delete_where}
use dav_deck.Storage.Database.{
  Database, Store, StoreError, user_not_found, share_not_found, permission_not_found, write,
}
use dav_deck.Storage.Database.Atomic.{database, Keeps-statement}
use dav_deck.Storage.Snapshots.Reads.{Keeps-scanned}
use dav_deck.Storage.Users
use dav_deck.Storage.Shares
use dav_deck.Storage.Permissions
use dav_deck.Storage.Settings

-- The database is the same, or it is marked as changed.
abbrev pub Marked : Database → Database → Type 0
Marked before after = (after ≡ before) ⊎ (after.runtime_state.dirty ≡ true)

pub Marked-refl : (d : Database) → Marked d d
Marked-refl d = inl refl

pub Marked-trans : (a b c : Database) → Marked a b → Marked b c → Marked a c
Marked-trans a b c (inl h) (inl k) = inl (k ∙ h)
Marked-trans a b c (inr h) (inl k) = inr (subst (λ d. d.runtime_state.dirty ≡ true) (sym k) h)
Marked-trans a b c h (inr k) = inr k

-- An action on the database that marks what it changes.
abbrev pub Marks : {E A : Type 0} → Exec Store E A → Type 0
Marks m = Steps Marked database m

pub Marks-read : {E A : Type 0} (m : Exec Store E A) → Keeps database m → Marks m
Marks-read m k = Steps-of_Keeps Marked database Marked-refl m k

pub Marks-bind :
    {E A B : Type 0} (m : Exec Store E A) (g : A → Exec Store E B)
    → Marks m
    → ((a : A) → Marks (g a))
    → Marks (m >>= g)
Marks-bind m g h k = Steps-bind Marked database Marked-refl Marked-trans m g h k

pub Marks-modify :
    {E : Type 0} (f : Database → Database)
    → ((d : Database) → Marked d (f d))
    → Marks (modify {E = E} (λ s. record s { db = f s.db }))
Marks-modify f h = Steps-modify (λ s. record s { db = f s.db }) (λ s. h s.db)

pub Marks-write : (f : Database → Database) → ((d : Database) → Marked d (f d)) → Marks (write f)
unfolding write
Marks-write f h = Marks-bind _ _ (Marks-read _ Keeps-statement) (λ _. Marks-modify f h)

-- A statement that changes rows only where there are such.
Marked-if :
    (b : Bool) (d e : Database) → e.runtime_state.dirty ≡ true → Marked d (if b then e else d)
Marked-if true d e h = inr h
Marked-if false d e h = inl refl

Marks-checked :
    (test : Database → Bool) (change : Database → Database) (missing : StoreError)
    → ((d : Database) → (change d).runtime_state.dirty ≡ true)
    → Marks (
        gets (λ s. test s.db) >>= λ b.
        write (λ d. if test d then change d else d) >>= λ _. fail_if (not b) missing)
Marks-checked test change missing h = Marks-bind _ _ (Marks-read _ (Keeps-gets _)) λ b.
    Marks-bind _ _ (Marks-write _ (λ d. Marked-if (test d) d (change d) (h d)))
      λ _. Marks-read _ (Keeps-fail_if (not b) missing)

module _ (now : Timestamp) where
  pub Marks-create_user : (u : User) → Marks (Users.create now u)
  unfolding Users.create
  Marks-create_user u = Marks-bind _ _ (Marks-read _ Keeps-statement) λ _.
      Marks-bind _ _ (Marks-read _ (Keeps-gets _)) λ same_name.
        Marks-bind _ _ (Marks-read _ (Keeps-fail_if same_name _)) λ _.
          Marks-bind _ _ (Marks-read _ (Keeps-gets _)) λ same_id.
            Marks-bind _ _ (Marks-read _ (Keeps-fail_if same_id _))
              λ _. Marks-modify _ λ d. inr refl

  pub Marks-delete_user : (id : EntityId) → Marks (Users.delete now id)
  unfolding Users.delete Users.without_user
  Marks-delete_user id =
      Marks-checked (λ d. any (Users.has_id id) d.tables.users) (Users.without_user now id)
        user_not_found (λ d. refl)

  pub Marks-update_user :
      (id : EntityId) (change : User → User) → Marks (Users.update_user now id change)
  unfolding Users.update_user
  Marks-update_user id change =
      Marks-checked (λ d. any (Users.has_id id) d.tables.users)
        (Users.with_users now (update_where (Users.has_id id) change)) user_not_found (λ d. refl)

  pub Marks-create_share : (share : Share) → Marks (Shares.create now share)
  unfolding Shares.create
  Marks-create_share share = Marks-bind _ _ (Marks-read _ Keeps-statement) λ _.
      Marks-bind _ _ (Marks-read _ (Keeps-gets _)) λ same_slug.
        Marks-bind _ _ (Marks-read _ (Keeps-fail_if same_slug _)) λ _.
          Marks-bind _ _ (Marks-read _ (Keeps-gets _)) λ same_id.
            Marks-bind _ _ (Marks-read _ (Keeps-fail_if same_id _))
              λ _. Marks-modify _ λ d. inr refl

  pub Marks-update_share : (share : Share) → Marks (Shares.update now share)
  unfolding Shares.update
  Marks-update_share share = Marks-bind _ _ (Marks-read _ Keeps-statement) λ _.
      Marks-bind _ _ (Marks-read _ (Keeps-gets _)) λ exists.
        Marks-bind _ _ (Marks-read _ (Keeps-gets _)) λ same_slug.
          Marks-bind _ _ (Marks-read _ (Keeps-fail_if _ _)) λ _.
            Marks-bind _ _ (Marks-modify _ λ d. Marked-if exists d _ refl)
              λ _. Marks-read _ (Keeps-fail_if _ _)

  pub Marks-delete_share : (id : EntityId) → Marks (Shares.delete now id)
  unfolding Shares.delete Shares.without_share
  Marks-delete_share id =
      Marks-checked (λ d. any (Shares.has_id id) d.tables.shares) (Shares.without_share now id)
        share_not_found (λ d. refl)

  pub Marks-set_permission : (p : SharePermission) → Marks (Permissions.set now p)
  unfolding Permissions.set
  Marks-set_permission p = Marks-bind _ _ (Marks-read _ Keeps-statement) λ _.
      Marks-bind _ _ (Marks-read _ (Keeps-gets _)) λ allowed.
        Marks-bind _ _ (Marks-read _ (Keeps-fail_if (not allowed) _))
          λ _. Marks-modify _ λ d. inr refl

  pub Marks-delete_permission :
      (share_id user_id : EntityId) → Marks (Permissions.delete now share_id user_id)
  unfolding Permissions.delete
  Marks-delete_permission share_id user_id =
      Marks-checked (λ d. any (Permissions.has_key share_id user_id) d.tables.share_permissions)
        (Permissions.with_permissions now (delete_where (Permissions.has_key share_id user_id)))
        permission_not_found (λ d. refl)

  Marked-ports :
      (http_port https_port : ℕ) (updated : Timestamp) (rows : List ServerSettings) (d : Database)
      → Marked
          (record d { tables = record d.tables { server_settings = rows } })
          (Settings.with_ports now http_port https_port updated
            (record d { tables = record d.tables { server_settings = rows } }))
  unfolding Settings.with_ports
  Marked-ports http_port https_port updated [] d = inl refl
  Marked-ports http_port https_port updated (s ∷ rows) d = inr refl

module _ ⦃tables : CaseTables⦄ where
  Keeps-found_settings : (row : Option ServerSettings) → Keeps database (Settings.found row)
  unfolding Settings.found
  Keeps-found_settings none = Keeps-raise _
  Keeps-found_settings (some row) = Keeps-scanned (scan_settings row)

  pub Keeps-get_settings : Keeps database Settings.get
  unfolding Settings.get
  Keeps-get_settings =
      Keeps-bind _ _ Keeps-statement
        λ _. Keeps-bind _ _ (Keeps-gets _) λ row. Keeps-found_settings row

  pub Marks-update_ports :
      (now : Timestamp) (http_port https_port : ℕ) (updated : Timestamp)
      → Marks (Settings.update_ports now http_port https_port updated)
  unfolding Settings.update_ports
  Marks-update_ports now http_port https_port updated =
      Marks-bind _ _ (Marks-read _ Keeps-statement) λ _.
        Marks-bind _ _ (Marks-read _ (Keeps-gets _)) λ bad.
          Marks-bind _ _ (Marks-read _ (Keeps-fail_if bad _)) λ _.
            Marks-bind _ _ (Marks-read _ (Keeps-gets _)) λ count.
              Marks-bind _ _
                (Marks-modify _
                  λ d. Marked-ports now http_port https_port updated d.tables.server_settings d)
                λ _.
                  Marks-bind _ _ (Marks-read _ (Keeps-fail_if _ _))
                    λ _. Marks-read _ Keeps-get_settings

  Keeps-found_user : (row : Option User) → Keeps database (Users.found row)
  unfolding Users.found
  Keeps-found_user none = Keeps-raise _
  Keeps-found_user (some row) = Keeps-scanned (scan_user row)

  pub Keeps-get_user : (id : EntityId) → Keeps database (Users.get id)
  unfolding Users.get
  Keeps-get_user id =
      Keeps-bind _ _ Keeps-statement λ _. Keeps-bind _ _ (Keeps-gets _) λ row. Keeps-found_user row

  Keeps-found_share : (row : Option Share) → Keeps database (Shares.found row)
  unfolding Shares.found
  Keeps-found_share none = Keeps-raise _
  Keeps-found_share (some row) = Keeps-scanned (scan_share row)

  pub Keeps-get_share : (id : EntityId) → Keeps database (Shares.get id)
  unfolding Shares.get
  Keeps-get_share id =
      Keeps-bind _ _ Keeps-statement λ _. Keeps-bind _ _ (Keeps-gets _) λ row. Keeps-found_share row

  pub Keeps-list_by_share : (id : EntityId) → Keeps database (Permissions.list_by_share id)
  unfolding Permissions.list_by_share
  Keeps-list_by_share id =
      Keeps-bind _ _ Keeps-statement λ _. Keeps-bind _ _ (Keeps-gets _) λ rows. Keeps-scanned _
