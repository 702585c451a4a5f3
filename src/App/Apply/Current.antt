-- ===== src/App/Apply/Current.antt =====
-- `apply` as a whole, where it succeeds.
use dav_deck.Common.{Bool}
use dav_deck.Common.Text.{Text, CaseTables}
use dav_deck.Common.Exec.Ensures.{Ensures, Ensures-bind}
use dav_deck.Domain.Revision.{ConfigRevision, Digest}
use dav_deck.Domain.State.{Codec}
use dav_deck.App.World.{Collaborators, CompiledConfig, Environment}
use dav_deck.App.Outcome.Current.{IsApplied, Ensures-bring_up}
use dav_deck.App.Apply.{apply_candidate, apply}

module _ {R : Type 0} (c : Collaborators R) ⦃tables : CaseTables⦄ ⦃digest : Digest⦄ ⦃codec : Codec⦄
    (app_version : Text) where
  Ensures-apply_candidate :
      (created : Bool) (candidate : ConfigRevision) (compiled : CompiledConfig) (env : Environment)
      → Ensures IsApplied (apply_candidate c app_version created candidate compiled env)
  unfolding apply_candidate
  Ensures-apply_candidate created candidate compiled env = Ensures-bind _ _ _ λ previous.
      Ensures-bind _ _ _ λ stamp. Ensures-bind _ _ _ λ r. Ensures-bind _ _ _ λ changed.
        Ensures-bind _ _ _ (Ensures-bring_up c created r previous stamp compiled env changed)

  pub Ensures-apply : Ensures IsApplied (apply c app_version)
  unfolding apply
  Ensures-apply = Ensures-bind _ _ _ λ prepared. Ensures-bind _ _ _ λ state_snapshot.
      Ensures-bind _ _ _ λ state_hash. Ensures-bind _ _ _ λ found.
        Ensures-bind _ _ _
          λ candidate. Ensures-apply_candidate candidate.0 candidate.1 prepared.1 prepared.2
