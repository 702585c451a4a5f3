-- ===== src/App/Marked.antt =====
-- The services of core/internal/app that change the desired state, and the mark that `Apply` clears.
use dav_deck.Common.{ℕ, Bool, true, Option, some, none, Result, ok, err, wrap}
use dav_deck.Common.Text.{Text, CaseTables}
use dav_deck.Common.Exec.{Exec, ◌>>=◌}
use dav_deck.Common.Exec.Keeps.{
  Keeps, Keeps-pure, Keeps-bind, Keeps-raise, Keeps-lift, Keeps-if, Keeps-fail_if, Keeps-map_error,
}
use dav_deck.Common.Exec.Steps.{
  Steps, Steps-of_Keeps, Steps-bind, Steps-map_error, Steps-attempt, Steps-if,
}
use dav_deck.Domain.Id.{EntityId}
use dav_deck.Domain.Timestamp.{Timestamp, new_timestamp}
use dav_deck.Domain.Share.{Permission}
use dav_deck.Domain.Settings.{ServerSettings}
use dav_deck.Storage.Database.{Database, Store, StoreError, permission_not_found}
use dav_deck.Storage.Database.Atomic.{database}
use dav_deck.Storage.Marked.{Marked, Marked-refl, Marked-trans, Marks}
use dav_deck.Storage.Marked as Rows
use dav_deck.Storage.Users as UserRows
use dav_deck.Storage.Shares as ShareRows
use dav_deck.Storage.Permissions as PermissionRows
use dav_deck.Storage.Settings as SettingsRows
use dav_deck.App.Errors.{Error, database_error}
use dav_deck.App.World.{World, on_store}
use dav_deck.App.World.Views.{Keeps-on_store, Keeps-on_runtime, Keeps-ask}
use dav_deck.App.Sources.{
  Sources, map_user_error, map_share_error, map_settings_error, call, call_at, outside, stamp,
}
use dav_deck.App.Users
use dav_deck.App.Shares
use dav_deck.App.Shares.{ShareUpdate}
use dav_deck.App.Permissions
use dav_deck.App.Settings

module _ {R : Type 0} where
  abbrev pub stored : World R → Database
  stored w = w.store.db

  -- A use case that marks what it changes.
  abbrev pub MarksStored : {E A : Type 0} → Exec (World R) E A → Type 0
  MarksStored m = Steps Marked stored m

  reads : {E A : Type 0} (m : Exec (World R) E A) → Keeps stored m → MarksStored m
  reads m k = Steps-of_Keeps Marked stored Marked-refl m k

  step :
      {E A B : Type 0} (m : Exec (World R) E A) (g : A → Exec (World R) E B)
      → MarksStored m
      → ((a : A) → MarksStored (g a))
      → MarksStored (m >>= g)
  step m g h k = Steps-bind Marked stored Marked-refl Marked-trans m g h k

  Marks-on_store : {E A : Type 0} (m : Exec Store E A) → Marks m → MarksStored (on_store m)
  unfolding on_store
  Marks-on_store m h = record { at = λ w. h.at w.store }

  Marks-call_at :
      {A : Type 0} (sources : Sources R) (f : StoreError → Error)
      (m : Timestamp → Exec Store StoreError A)
      → ((now : Timestamp) → Marks (m now))
      → MarksStored (call_at sources f m)
  unfolding call_at call
  Marks-call_at sources f m h =
      step _ _ (reads _ (Keeps-ask database sources.trigger_time))
        λ now. Steps-map_error f _ (Marks-on_store (m now) (h now))

  Keeps-call :
      {A : Type 0} (f : StoreError → Error) (m : Exec Store StoreError A)
      → Keeps database m
      → Keeps stored (call f m)
  unfolding call
  Keeps-call f m k = Keeps-map_error f _ (Keeps-on_store database m k)

  pub Keeps-outside : {E A : Type 0} (e : Error) (m : Exec R E A) → Keeps stored (outside e m)
  unfolding outside
  Keeps-outside e m = Keeps-map_error _ _ (Keeps-on_runtime database m)

  pub Keeps-stamp : (sources : Sources R) → Keeps stored (stamp sources)
  unfolding stamp
  Keeps-stamp sources =
      Keeps-bind _ _ (Keeps-ask database sources.now)
        λ t. Keeps-lift (wrap (λ _. database_error) (new_timestamp t))

  Marks-stamp : (sources : Sources R) → MarksStored (stamp sources)
  Marks-stamp sources = reads _ (Keeps-stamp sources)

module _ ⦃tables : CaseTables⦄ {R : Type 0} (sources : Sources R) where
  create_user : (username password : Text) → MarksStored (Users.create sources username password)
  unfolding Users.create
  create_user username password = step _ _ (reads _ (Keeps-lift _)) λ _.
      step _ _ (reads _ (Keeps-outside _ sources.new_id)) λ id.
        step _ _ (Marks-stamp sources) λ created.
          step _ _ (reads _ (Keeps-outside _ (sources.hash password))) λ hash.
            step _ _ (reads _ (Keeps-lift _)) λ _.
              step _ _
                (Marks-call_at sources map_user_error
                  (λ now. UserRows.create now (Users.new_user id username hash created))
                  λ now. Rows.Marks-create_user now (Users.new_user id username hash created))
                λ _. reads _ (Keeps-pure (Users.new_user id username hash created))

  delete_user : (id : EntityId) → MarksStored (Users.delete sources id)
  unfolding Users.delete
  delete_user id =
      Marks-call_at sources map_user_error (λ now. UserRows.delete now id)
        λ now. Rows.Marks-delete_user now id

  set_enabled :
      (id : EntityId) (enabled : Bool) → MarksStored (Users.set_enabled sources id enabled)
  unfolding Users.set_enabled Users.get Users.write_enabled UserRows.set_enabled
  set_enabled id enabled = step _ _ (reads _ (Keeps-call _ _ (Rows.Keeps-get_user id))) λ current.
      Steps-if _ _ _ (reads _ (Keeps-pure _)) (
        step _ _ (Marks-stamp sources) λ updated.
          step _ _
            (Marks-call_at sources map_user_error
              (λ now. UserRows.set_enabled now id enabled updated)
              λ now.
                Rows.Marks-update_user now id
                  (λ u. record u { enabled = enabled; updated_at = updated }))
            λ _. reads _ (Keeps-pure true))

  change_password :
      (id : EntityId) (password : Text) → MarksStored (Users.change_password sources id password)
  unfolding Users.change_password UserRows.set_password_hash
  change_password id password = step _ _ (reads _ (Keeps-lift _)) λ _.
      step _ _ (reads _ (Keeps-outside _ (sources.hash password))) λ hash.
        step _ _ (Marks-stamp sources) λ updated.
          Marks-call_at sources map_user_error
            (λ now. UserRows.set_password_hash now id hash updated)
            λ now.
              Rows.Marks-update_user now id
                (λ u. record u { password_hash = hash; updated_at = updated })

  Keeps-check_path : (path : Text) → Keeps stored (Shares.check_path sources path)
  unfolding Shares.check_path
  Keeps-check_path path = Keeps-map_error _ _ (Keeps-on_runtime database _)

  Keeps-check_new_path : (path : Option Text) → Keeps stored (Shares.check_new_path sources path)
  unfolding Shares.check_new_path
  Keeps-check_new_path none = Keeps-pure _
  Keeps-check_new_path (some path) = Keeps-check_path path

  create_share : (name slug path : Text) → MarksStored (Shares.create sources name slug path)
  unfolding Shares.create
  create_share name slug path = step _ _ (reads _ (Keeps-outside _ sources.new_id)) λ id.
      step _ _ (Marks-stamp sources) λ created. step _ _ (reads _ (Keeps-lift _)) λ _.
        step _ _ (reads _ (Keeps-check_path path)) λ _.
          step _ _
            (Marks-call_at sources map_share_error
              (λ now. ShareRows.create now (Shares.new_share id name slug path created))
              λ now. Rows.Marks-create_share now (Shares.new_share id name slug path created))
            λ _. reads _ (Keeps-pure (Shares.new_share id name slug path created))

  update_share :
      (id : EntityId) (change : ShareUpdate) → MarksStored (Shares.update sources id change)
  unfolding Shares.update Shares.get Shares.write_share
  update_share id change = step _ _ (reads _ (Keeps-call _ _ (Rows.Keeps-get_share id))) λ current.
      step _ _ (reads _ (Keeps-lift _)) λ _.
        step _ _ (reads _ (Keeps-check_new_path change.path)) λ _.
          Steps-if _ _ _ (reads _ (Keeps-pure _)) (
            step _ _ (Marks-stamp sources) λ updated.
              step _ _
                (Marks-call_at sources map_share_error
                  (λ now.
                    ShareRows.update now
                      (record (Shares.updated_share change current) { updated_at = updated }))
                  λ now.
                    Rows.Marks-update_share now
                      (record (Shares.updated_share change current) { updated_at = updated }))
                λ _. reads _ (
                  Keeps-pure
                    (record (Shares.updated_share change current) { updated_at = updated }, true)))

  delete_share : (id : EntityId) → MarksStored (Shares.delete sources id)
  unfolding Shares.delete
  delete_share id =
      Marks-call_at sources map_share_error (λ now. ShareRows.delete now id)
        λ now. Rows.Marks-delete_share now id

  Keeps-removed : (r : Result StoreError (Unit {0})) → Keeps stored (Permissions.removed sources r)
  unfolding Permissions.removed
  Keeps-removed (ok _) = Keeps-pure _
  Keeps-removed (err permission_not_found) = Keeps-pure _
  Keeps-removed (err _) = Keeps-raise _

  set_permission :
      (share_id user_id : EntityId) (permission : Permission)
      → MarksStored (Permissions.set sources share_id user_id permission)
  unfolding Permissions.set Permissions.remove_permission Permissions.write_permission
  set_permission share_id user_id permission = step _ _ (reads _ (Keeps-fail_if _ _)) λ _.
      step _ _ (reads _ (Keeps-call _ _ (Rows.Keeps-get_share share_id))) λ _.
        step _ _ (reads _ (Keeps-call _ _ (Rows.Keeps-get_user user_id))) λ u.
          step _ _ (reads _ (Keeps-call _ _ (Rows.Keeps-list_by_share share_id))) λ rows.
            Steps-if _ _ _ (reads _ (Keeps-pure _)) (
              step _ _
                (Steps-if _ _ _
                  (step _ _ (reads _ (Keeps-ask database sources.trigger_time)) λ now.
                    step _ _
                      (Steps-attempt _
                        (Marks-on_store _ (Rows.Marks-delete_permission now share_id user_id)))
                      λ r. reads _ (Keeps-removed r))
                  (step _ _ (Marks-stamp sources) λ created. step _ _ (reads _ (Keeps-lift _)) λ _.
                    Marks-call_at sources (λ _. database_error)
                      (λ now.
                        PermissionRows.set now
                          (Permissions.new_permission share_id user_id permission created))
                      λ now.
                        Rows.Marks-set_permission now
                          (Permissions.new_permission share_id user_id permission created)))
                λ _. reads _ (Keeps-pure _))

  Keeps-check_port :
      (current : ServerSettings) (port : ℕ)
      → Keeps stored (Settings.check_port sources current port)
  unfolding Settings.check_port
  Keeps-check_port current port =
      Keeps-if _ _ _ (Keeps-pure _) (Keeps-outside _ (sources.check_port port))

  update_ports :
      (http_port https_port : ℕ) → MarksStored (Settings.update_ports sources http_port https_port)
  unfolding Settings.update_ports Settings.get
  update_ports http_port https_port =
      step _ _ (reads _ (Keeps-call _ _ Rows.Keeps-get_settings)) λ current.
        step _ _ (reads _ (Keeps-lift _)) λ _.
          step _ _ (reads _ (Keeps-check_port current http_port)) λ _.
            step _ _ (reads _ (Keeps-check_port current https_port)) λ _.
              step _ _ (Marks-stamp sources) λ updated.
                Marks-call_at sources map_settings_error
                  (λ now. SettingsRows.update_ports now http_port https_port updated)
                  λ now. Rows.Marks-update_ports now http_port https_port updated

  -- Whatever a use case that changes users, shares, permissions or ports returns, an error included,
  -- either the database is exactly as before, or it is marked as changed since the last `Apply`.
  pub changes_are_marked :
      (username password name slug path : Text) (id other : EntityId) (enabled : Bool)
      (change : ShareUpdate) (permission : Permission) (http_port https_port : ℕ)
      → MarksStored (Users.create sources username password)
        × MarksStored (Users.delete sources id)
        × MarksStored (Users.set_enabled sources id enabled)
        × MarksStored (Users.change_password sources id password)
        × MarksStored (Shares.create sources name slug path)
        × MarksStored (Shares.update sources id change)
        × MarksStored (Shares.delete sources id)
        × MarksStored (Permissions.set sources id other permission)
        × MarksStored (Settings.update_ports sources http_port https_port)
  changes_are_marked username password name slug path id other enabled change permission http_port
        https_port =
      (
        create_user username password,
        delete_user id,
        set_enabled id enabled,
        change_password id password,
        create_share name slug path,
        update_share id change,
        delete_share id,
        set_permission id other permission,
        update_ports http_port https_port,
      )
