-- ===== src/Storage/Revisions/Operations.antt =====
-- What `Create` and `Delete` do where they succeed.
use dav_deck.Common.{◌≡◌, refl, ◌+◌, Bool, true, false, not, any, ◌∷◌, arith}
use dav_deck.Common.Text.{CaseTables}
use dav_deck.Domain.Id.{EntityId}
use dav_deck.Domain.Revision.{ConfigRevision, Digest}
use dav_deck.Domain.State.{Codec}
use dav_deck.Storage.Database.{Database}
use dav_deck.Storage.Database.After.{After-bind, After-keeps, After-transaction}
use dav_deck.Storage.Revisions.Reads.{Keeps-stored_state_hash}
use dav_deck.Storage.Database.Symbolic.{
  From, From-pure, From-statement, From-write, From-gets, From-lift, From-fail_if, From-end_fail_if,
}
use dav_deck.Storage.Revisions.{
  refers_to, has_id, select, with_rows, with_state, set_desired_row, delete_row, delete,
  insert_revision, create,
}
use dav_deck.Storage.Revisions.Unique.{clashes}

-- The deletion of a revision that is neither active nor desired, of which there is a row.
pub record Deletes (id : EntityId) (before after : Database) : Type 0 where
  pub not_active : refers_to before.runtime_state.active_revision_id id ≡ false
  pub not_desired : refers_to before.runtime_state.desired_revision_id id ≡ false
  pub found : any (has_id id) before.config_revisions ≡ true
  pub rest : after ≡ with_rows (select (λ r. not (has_id id r))) before

-- The insertion of a revision as the desired one, with the next number.
pub record Inserts (r : ConfigRevision) (before after : Database) : Type 0 where
  pub number : r.number ≡ before.next_number
  pub fresh : any (clashes r) before.config_revisions ≡ false
  pub rest :
      after
      ≡ with_state (set_desired_row r.id r.created_at) (record before {
        config_revisions = r ∷ before.config_revisions;
        next_number = before.next_number + 1;
      })

pub not-false : (b : Bool) → not b ≡ false → b ≡ true
not-false true h = refl
not-false false h = cc

From-delete_row : (d : Database) (id : EntityId) → From d (delete_row id) (λ _. Deletes id d)
unfolding delete_row
From-delete_row d id = From-statement _ _ _ λ _. From-gets _ _ _ _ (
    From-fail_if _ _ _ _ _ λ not_active _. From-fail_if _ _ _ _ _ λ not_desired _.
      From-gets _ _ _ _ (
        From-write _ _ _ _ λ _. From-end_fail_if _ _ _ _ λ found _. record {
          not_active = not_active;
          not_desired = not_desired;
          found = not-false _ found;
          rest = refl;
        }))

pub From-delete : (d : Database) (id : EntityId) → From d (delete id) (λ _. Deletes id d)
unfolding delete
From-delete d id = After-transaction _ _ _ (From-delete_row d id)

module _ ⦃tables : CaseTables⦄ ⦃digest : Digest⦄ ⦃codec : Codec⦄ where
  pub From-insert_revision :
      (d : Database) (r : ConfigRevision) → From d (insert_revision r) (λ s. Inserts s d)
  unfolding insert_revision
  From-insert_revision d r = From-write _ _ _ _ λ _. From-statement _ _ _ λ _. From-gets _ _ _ _ (
      From-lift _ _ _ _ λ _ _. From-gets _ _ _ _ (
        From-fail_if _ _ _ _ _ λ fresh _. From-write _ _ _ _ λ _.
          From-write _ _ _ _
            λ _. From-pure _ _ _ (record { number = omega arith; fresh = fresh; rest = refl })))

  pub From-create : (d : Database) (r : ConfigRevision) → From d (create r) (λ s. Inserts s d)
  unfolding create
  From-create d r = After-bind _ _ _ _ (After-keeps _ (Keeps-stored_state_hash r)) λ state_hash.
      After-transaction _ _ _ (From-insert_revision d (record r { state_hash = state_hash }))
