-- ===== src/Witnesses/OfOwner.antt =====
-- The profile and the view at concrete values.
use dscuss.Prelude.{◌≡◌, refl, ◌||◌, [], ◌∷◌, if◌then◌else◌, none, some, ok}
use dscuss.Entity.{EntityId, Message, Operation}
use dscuss.Sqlite.OperationTable.{get_operations_on_user, get_operations_on_message}
use dscuss.Owner.Profile.Caches.{IsAsked}
use dscuss.Owner.View.{moderate_message}
use dscuss.Owner.View.Moderation.{by_moderator, moderate_message_lem}
use dscuss.Witnesses.Samples.{
  sample_env, sample_message, sample_operation, sample_profile, sample_profile-IsCoherent,
  moderated,
}

no_bans : get_operations_on_user sample_env moderated 6 ≡ ok []
unfolding get_operations_on_user
no_bans = refl

one_removal : get_operations_on_message sample_env moderated 10 ≡ ok (sample_operation ∷ [])
unfolding get_operations_on_message dscuss.Entity.Operations.new_operation
one_removal = refl

moderate_message_lem_example :
    ((moderate_message sample_env moderated sample_profile sample_message).0
      ≡ ok (
          if by_moderator sample_profile [] || by_moderator sample_profile (sample_operation ∷ [])
          then none
          else some sample_message))
    × IsAsked sample_profile (moderate_message sample_env moderated sample_profile sample_message).1
moderate_message_lem_example =
    moderate_message_lem sample_env moderated sample_profile sample_message []
      (sample_operation ∷ []) sample_profile-IsCoherent no_bans refl one_removal refl
