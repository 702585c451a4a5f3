-- ===== src/App/Users/Fetched.antt =====
-- `Get` of core/internal/app/user_service.go after `Create`.
use dav_deck.Common.{
  ◌≡◌, refl, sym, subst, ap, Bool, true, false, not, ◌||◌, List, [], ◌∷◌, ◌++◌, any, some, Result,
  ok, err, reject, Gives, of_Gives, Gives-check, wrap, arith,
}
use dav_deck.Common.Text.{Text, CaseTables, text_eq, is_empty, trim_space}
use dav_deck.Common.Text.Laws.{text_eq_refl}
use dav_deck.Domain.Validation.{invalid, invalid_username, invalid_password_hash, contains_control}
use dav_deck.Domain.Id.{EntityId, validate_id, parse_id}
use dav_deck.Domain.Timestamp.{
  Timestamp, is_zero, new_timestamp, validate_timestamp, validate_time_range,
}
use dav_deck.Domain.User.{User, normalize_username, validate_user}
use dav_deck.Common.Exec.{gets, lift, map_error, ◌>>=◌}
use dav_deck.Storage.Database.{Database, Store, statement}
use dav_deck.Storage.Rows.{first, rows_where, scan_user, scanned}
use dav_deck.Storage.Users as UserRows
use dav_deck.Storage.Users.{has_id}
use dav_deck.App.World.{World, on_store}
use dav_deck.App.Sources.{Sources, map_user_error, call}
use dav_deck.App.Users.{create, get}
use dav_deck.App.Users.Created.{create-IsCreated}

always : {E A : Type 0} (P : Type 0) (r : Result E A) → P → Gives (λ _. P) r
always P (ok a) p = p
always P (err e) p = tt

not_rejected : {E : Type 0} (b : Bool) (e : E) (u : Unit {0}) → reject b e ≡ ok u → b ≡ false
not_rejected true e u h = cc
not_rejected false e u h = refl

same_utc : (t : Timestamp) → t.utc ≡ true → record t { utc = true } ≡ t
same_utc t h = ap (λ b. record t { utc = b }) (sym h)

valid_time : (t : Timestamp) → (is_zero t || not t.utc) ≡ false → new_timestamp t ≡ ok t
unfolding new_timestamp
valid_time t h =
    let nonzero : is_zero t ≡ false = ground arith in rw nonzero (ap ok (same_utc t (ground arith)))

module _ ⦃tables : CaseTables⦄ where
  -- A valid user is read back as it is.
  scan_valid : (u : User) → Gives (λ _. scan_user u ≡ ok u) (validate_user u)
  unfolding validate_user validate_time_range validate_timestamp scan_user parse_id
  scan_valid u = Gives-check _ (validate_id "id" u.id) _ λ id.
      Gives-check _
        (reject
          (is_empty u.username
            || not (text_eq u.username (trim_space u.username))
            || contains_control u.username)
          (invalid invalid_username "username"
            "must be non-empty, trimmed, and contain no control characters"))
        _
        λ _.
          Gives-check _
            (reject (not (text_eq u.username_normalized (normalize_username u.username)))
              (invalid invalid_username "username_normalized" "must match the normalized username"))
            _
            λ _.
              Gives-check _
                (reject (is_empty (trim_space u.password_hash) || contains_control u.password_hash)
                  (invalid invalid_password_hash "password_hash" "must contain a password hash"))
                _
                λ _. Gives-check _ (validate_timestamp "created_at" u.created_at) _ λ created.
                  Gives-check _ (validate_timestamp "updated_at" u.updated_at) _ λ updated.
                    let first : new_timestamp u.created_at ≡ ok u.created_at =
                      valid_time u.created_at (not_rejected _ _ tt created) in
                    let last : new_timestamp u.updated_at ≡ ok u.updated_at =
                      valid_time u.updated_at (not_rejected _ _ tt updated) in
                    always (scan_user u ≡ ok u) _ (rw (id, first, last) refl)

found_last :
    (id : EntityId) (u : User) (rows : List User)
    → any (has_id id) rows ≡ false
    → has_id id u ≡ true
    → first (rows_where (has_id id) (rows ++ u ∷ [])) ≡ some u
unfolding rows_where
found_last id u [] h k = ground arith
found_last id u (r ∷ rows) h k = ground (arith, found_last id u rows)

module _ ⦃tables : CaseTables⦄ where
  get-found :
      (id : EntityId) (u : User) (db : Database)
      → first (rows_where (has_id id) db.tables.users) ≡ some u
      → scan_user u ≡ ok u
      → (UserRows.get id (record { db = db; faults = [] })).0 ≡ ok u
  unfolding UserRows.get UserRows.found scanned statement gets lift ◌>>=◌
  get-found id u db h k = rw (h, k) refl

  get-stored :
      (id : EntityId) (u : User) (s : Store)
      → s.faults ≡ []
      → first (rows_where (has_id id) s.db.tables.users) ≡ some u
      → scan_user u ≡ ok u
      → (UserRows.get id s).0 ≡ ok u
  get-stored id u s none h k =
      subst (λ faults. (UserRows.get id (record { db = s.db; faults = faults })).0 ≡ ok u)
        (sym none) (get-found id u s.db h k)

  module _ {R : Type 0} (sources : Sources R) where
    -- Where `Create` succeeds and no later statement of the database fails, `Get` with the id of the
    -- user that `Create` returned gives exactly that user.
    pub get-create :
        (username password : Text) (w : World R) (u : User)
        → (create sources username password w).0 ≡ ok u
        → (create sources username password w).1.store.faults ≡ []
        → (get sources u.id (create sources username password w).1).0 ≡ ok u
    unfolding get call on_store map_error
    get-create username password w u h none =
        let created = create-IsCreated sources username password w u h in
        let after = (create sources username password w).1.store in
        let row : first (rows_where (has_id u.id) after.db.tables.users) ≡ some u =
          subst (λ t. first (rows_where (has_id u.id) t.users) ≡ some u) (sym created.stored)
            (found_last u.id u w.store.db.tables.users created.free_id (text_eq_refl u.id)) in
        ap (wrap map_user_error)
          (get-stored u.id u after none row (of_Gives _ _ tt (scan_valid u) created.valid))
