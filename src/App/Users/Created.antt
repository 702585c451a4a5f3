-- ===== src/App/Users/Created.antt =====
-- The users that `Create` of core/internal/app/user_service.go makes and stores.
use dav_deck.Common.{
  ◌≡◌, refl, ap, ◌≤◌, true, false, ok, err, Result, [], ◌∷◌, ◌++◌, any, wrap, arith,
}
use dav_deck.Common.Text.{Text, CaseTables, text_eq, byte_length}
use dav_deck.Common.Exec.{Exec, lift}
use dav_deck.Common.Exec.Ensures.{Ensures, Ensures-lift}
use dav_deck.Domain.User.{User, normalize_username, validate_user}
use dav_deck.App.Errors.{ErrorCode, Error, failure}
use dav_deck.Domain.Id.{EntityId}
use dav_deck.Domain.Timestamp.{Timestamp}
use dav_deck.Storage.Users as UserRows
use dav_deck.App.World.{World}
use dav_deck.App.Sources.{Sources, map_user_error}
use dav_deck.App.World.From.{
  FromDatabase, FromDatabase-keeps, FromDatabase-bind, FromDatabase-call_at, FromDatabase-pure,
}
use dav_deck.App.Marked.{Keeps-outside, Keeps-stamp}
use dav_deck.Common.Exec.Keeps.{Keeps-lift}
use dav_deck.Storage.Database.{Database}
use dav_deck.Storage.Database.After.{After-imp}
use dav_deck.Storage.Database.Symbolic.{
  From, From-statement, From-gets, From-fail_if, From-end_modify,
}
use dav_deck.Storage.Users.{has_id, with_users}
use dav_deck.App.Users.{validate_password, create, new_user}

password_bounds :
    (password : Text) (u : Unit {0})
    → validate_password password ≡ ok u
    → (8 ≤ byte_length password) × (byte_length password ≤ 72)
unfolding validate_password
password_bounds password u h = ground arith

wrapped_ok :
    {E F : Type 0} (f : E → F) (r : Result E (Unit {0})) (u : Unit {0})
    → wrap f r ≡ ok u
    → r ≡ ok tt
wrapped_ok f (ok _) u h = refl
wrapped_ok f (err e) u h = cc

-- What `Create` of the repository leaves: the name and the id were free, and the row is added.
abbrev Inserts : Timestamp → User → Database → Database → Type 0
Inserts now u before after =
    (any (λ v. text_eq v.username_normalized u.username_normalized) before.tables.users ≡ false)
    × (any (has_id u.id) before.tables.users ≡ false)
    × (after ≡ with_users now (λ users. users ++ u ∷ []) before)

create-Inserts :
    (now : Timestamp) (u : User) (before : Database)
    → From before (UserRows.create now u) (λ _. Inserts now u before)
unfolding UserRows.create
create-Inserts now u before = From-statement _ _ _ λ _. From-gets _ _ _ _ (
    From-fail_if _ _ _ _ _ λ new_name _.
      From-gets _ _ _ _
        (From-fail_if _ _ _ _ _ λ new_id _. From-end_modify _ _ _ λ _. (new_name, new_id, refl)))

abbrev invalid_name : Error
invalid_name = failure ErrorCode.invalid_username "Username is invalid"

module _ ⦃tables : CaseTables⦄ where
  -- The user is valid, enabled, and has the normal form of the name; the password is within bounds.
  -- Its id and its name were free; its row is the one that is added, nothing else of the tables and
  -- of the revisions changes, and the desired state is marked as changed.
  pub record IsCreated (username password : Text) (before : Database) (u : User) (after : Database)
      : Type 0 where
    pub valid : validate_user u ≡ ok tt
    pub enabled : u.enabled ≡ true
    pub normalized : u.username_normalized ≡ normalize_username username
    pub at_least : 8 ≤ byte_length password
    pub at_most : byte_length password ≤ 72
    pub free_name :
        any (λ v. text_eq v.username_normalized u.username_normalized) before.tables.users ≡ false
    pub free_id : any (has_id u.id) before.tables.users ≡ false
    pub stored : after.tables ≡ record before.tables { users = before.tables.users ++ u ∷ [] }
    pub revisions : after.config_revisions ≡ before.config_revisions
    pub dirty : after.runtime_state.dirty ≡ true

  new_user-IsCreated :
      (username password hash : Text) (id : EntityId) (created now : Timestamp)
      (before after : Database) (u v : Unit {0})
      → validate_password password ≡ ok u
      → wrap (λ _. invalid_name) (validate_user (new_user id username hash created)) ≡ ok v
      → Inserts now (new_user id username hash created) before after
      → IsCreated username password before (new_user id username hash created) after
  new_user-IsCreated username password hash id created now before after u v short valid inserted =
      record {
        valid = wrapped_ok _ _ _ valid;
        enabled = refl;
        normalized = refl;
        at_least = (password_bounds password u short).0;
        at_most = (password_bounds password u short).1;
        free_name = inserted.0;
        free_id = inserted.1;
        stored = ap (λ db. db.tables) inserted.2;
        revisions = ap (λ db. db.config_revisions) inserted.2;
        dirty = ap (λ db. db.runtime_state.dirty) inserted.2;
      }

  module _ {R : Type 0} (sources : Sources R) where
    from_create :
        (username password : Text) (before : Database)
        → FromDatabase before
            (create sources username password)
            (IsCreated username password before)
    unfolding create
    from_create username password before =
        FromDatabase-keeps before (λ u. validate_password password ≡ ok u) Created
          (lift (validate_password password)) _ (Keeps-lift _)
          (Ensures-lift (validate_password password))
          λ u short.
            FromDatabase-keeps before Any Created _ _ (Keeps-outside _ sources.new_id) anything
              λ id _.
                FromDatabase-keeps before Any Created _ _ (Keeps-stamp sources) anything
                  λ created _.
                    FromDatabase-keeps before Any Created _ _
                      (Keeps-outside _ (sources.hash password)) anything
                      λ hash _.
                        FromDatabase-keeps before (λ v. checked id hash created ≡ ok v) Created
                          (lift (checked id hash created)) _ (Keeps-lift _)
                          (Ensures-lift (checked id hash created))
                          λ v valid.
                            FromDatabase-bind before (λ _. Stored id hash created) Created _ _
                              (FromDatabase-call_at sources before map_user_error
                                (λ now. UserRows.create now (new_user id username hash created))
                                (λ _. Stored id hash created)
                                (λ now.
                                  After-imp _ _ _
                                    (create-Inserts now (new_user id username hash created) before)
                                    λ _ db p. (now, p)))
                              λ _ after (now, p).
                                FromDatabase-pure after Created (new_user id username hash created)
                                  (new_user-IsCreated username password hash id created now before
                                    after u v short valid p)
      where
        Created : User → Database → Type 0
        Created = IsCreated username password before

        Any : {A : Type 0} → A → Type 0
        Any _ = Unit {0}

        anything : {A : Type 0} {m : Exec (World R) Error A} → Ensures (λ a w. Any a) m
        anything = record { at_ok = λ w a h. tt }

        checked : EntityId → Text → Timestamp → Result Error (Unit {0})
        checked id hash created =
            wrap (λ _. invalid_name) (validate_user (new_user id username hash created))

        Stored : EntityId → Text → Timestamp → Database → Type 0
        Stored id hash created db =
            (now : Timestamp) × Inserts now (new_user id username hash created) before db

    -- Where `Create` succeeds, the password has between 8 and 72 bytes, and the user that it returns is
    -- valid, enabled and has the normal form of the name that was given. No user of the database had
    -- that normal form or that id; afterwards this user follows those of before in the table of the
    -- users, the other tables and the revisions are as they were, and the desired state is marked as
    -- changed.
    pub create-IsCreated :
        (username password : Text) (w : World R) (u : User)
        → (create sources username password w).0 ≡ ok u
        → IsCreated username password w.store.db u (create sources username password w).1.store.db
    create-IsCreated username password w u h =
        (from_create username password w.store.db).at_ok w refl u h
