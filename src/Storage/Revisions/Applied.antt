-- ===== src/Storage/Revisions/Applied.antt =====
-- What `MarkApplied` makes of the table `config_revisions` and of the runtime state.
use dav_deck.Common.{◌≡◌, refl, Bool, true, false, not, ◌&&◌, List, [], ◌∷◌, any, some, arith}
use dav_deck.Common.Text.{is_empty}
use dav_deck.Common.Exec.Ensures.{Ensures}
use dav_deck.Domain.Id.{EntityId}
use dav_deck.Domain.Timestamp.{Timestamp}
use dav_deck.Domain.Revision.{ConfigRevision, is_applied}
use dav_deck.Storage.Database.{Database}
use dav_deck.Storage.Database.Ensured.{InDb, Ensures-transaction}
use dav_deck.Storage.Database.Symbolic.{From, From-gets, From-write, From-fail_if, From-end_write}
use dav_deck.Storage.Revisions.{has_valid_id, set_applied, update, activate_rows, mark_applied}

-- The row of the revision: valid, applied, and without an error.
abbrev pub is_applied_row : EntityId → ConfigRevision → Bool
is_applied_row id r =
    has_valid_id id r
    && is_applied r.apply_status
    && is_empty r.error_code
    && is_empty r.error_summary

-- The revision is stored as an applied one, it is the desired and the active one, and the desired
-- state has no later change.
pub record IsCurrent (id : EntityId) (db : Database) : Type 0 where
  pub row : any (is_applied_row id) db.config_revisions ≡ true
  pub desired : db.runtime_state.desired_revision_id ≡ some id
  pub active : db.runtime_state.active_revision_id ≡ some id
  pub clean : db.runtime_state.dirty ≡ false

row-set_applied :
    (id : EntityId) (rows : List ConfigRevision)
    → not (any (has_valid_id id) rows) ≡ false
    → any (is_applied_row id) (update (has_valid_id id) set_applied rows) ≡ true
row-set_applied id [] h = cc
row-set_applied id (r ∷ rows) h = ground (arith, row-set_applied id rows)

-- The statements that `MarkApplied` and `RestoreState` have in common.
pub Ensures-activate_rows :
    (id : EntityId) (stamp : Timestamp)
    → Ensures (InDb (λ _. IsCurrent id)) (activate_rows id stamp)
unfolding activate_rows
Ensures-activate_rows id stamp = record { at_ok = λ s a h. (from s.db).at_ok s refl a h }
  where
    from : (db : Database) → From db (activate_rows id stamp) (λ _. IsCurrent id)
    from db = From-gets _ _ _ _ (
        From-write _ _ _ _ λ _. From-fail_if _ _ _ _ _ λ exists _. From-end_write _ _ _ λ _.
          record {
            row = row-set_applied id db.config_revisions exists;
            desired = refl;
            active = refl;
            clean = refl;
          })

pub Ensures-mark_applied :
    (id : EntityId) (stamp : Timestamp) → Ensures (InDb (λ _. IsCurrent id)) (mark_applied id stamp)
unfolding mark_applied
Ensures-mark_applied id stamp = Ensures-transaction _ _ (Ensures-activate_rows id stamp)
