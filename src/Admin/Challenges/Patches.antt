-- ===== src/Admin/Challenges/Patches.antt =====
-- The changes that PUT /admin/challenges/{challenge_id} asks for (backend/src/alpha/routes_admin.py,
-- `update_challenge`). Each field is absent, null or a value.
use ctfnight.Base.{
  ℕ, String, Bool, ◌||◌, none, some, List, [], Result, ok, err, api, Code, Error, raise_if, ltb,
  if◌then◌else◌, is_some,
}
use ctfnight.Model.{Db, Challenge, ScoringType}
use ctfnight.Event.{ScoringPatch}
use ctfnight.Security.{FlagInput, apply_flag}
use ctfnight.Access.{Request}
use ctfnight.Prerequisites.{load_prerequisites}
use ctfnight.Admin.EventUpdate.{Patch, patched, replaced, sets_null, named}

pub record ChallengePatch : Type 0 where
  pub slug : Patch String
  pub title : Patch String
  pub category : Patch String
  pub description_md : Patch String
  pub connection_info : Patch String
  pub scoring_type : Patch ScoringType
  pub initial_points : Patch ℕ
  pub minimum_points : Patch ℕ
  pub decay : Patch ℕ
  pub visible : Patch Bool
  pub visible_at : Patch ℕ
  pub max_attempts : Patch ℕ
  pub prerequisite_ids : Patch (List ℕ)
  pub flag : Patch FlagInput

unfoldable pub scoring_of : ChallengePatch → ScoringPatch
scoring_of patch = record {
  scoring_type = patch.scoring_type;
  initial_points = patch.initial_points;
  minimum_points = patch.minimum_points;
  decay = patch.decay;
}

-- `for key, value in values.items(): setattr(challenge, key, value)`. A null in a column that is
-- NOT NULL leaves the old value here, and is refused later.
unfoldable pub apply_values : ChallengePatch → Challenge → Challenge
apply_values patch challenge = record challenge {
  slug = replaced patch.slug challenge.slug;
  title = replaced patch.title challenge.title;
  category = replaced patch.category challenge.category;
  description_md = replaced patch.description_md challenge.description_md;
  connection_info = patched patch.connection_info challenge.connection_info;
  scoring_type = replaced patch.scoring_type challenge.scoring_type;
  initial_points = replaced patch.initial_points challenge.initial_points;
  minimum_points = replaced patch.minimum_points challenge.minimum_points;
  decay = replaced patch.decay challenge.decay;
  visible = replaced patch.visible challenge.visible;
  visible_at = patched patch.visible_at challenge.visible_at;
  max_attempts = replaced patch.max_attempts challenge.max_attempts;
}

-- `challenge.minimum_points > challenge.initial_points`, which is a TypeError on a null.
unfoldable pub points_guard : ChallengePatch → Challenge → Result (Unit {0})
points_guard patch changed =
    if sets_null patch.minimum_points || sets_null patch.initial_points
    then err Error.unexpected_error
    else raise_if (ltb changed.initial_points changed.minimum_points) (api 422 Code.invalid_scoring)

unfoldable pub patched_flag : Request → Patch FlagInput → Challenge → Result Challenge
patched_flag request none challenge = ok challenge
patched_flag request (some none) challenge = ok challenge
patched_flag request (some (some flag)) challenge =
    apply_flag request.crypto challenge flag request.settings.secret_key
      request.settings.max_flag_length

unfoldable pub patched_prerequisites : ℕ → Patch (List ℕ) → Challenge → Db → Result Challenge
patched_prerequisites event_id none challenge d = ok challenge
patched_prerequisites event_id (some none) challenge d = ok challenge
patched_prerequisites event_id (some (some ids)) challenge d =
    elim (load_prerequisites d event_id ids (some challenge.id)) [
      | err e ↦ err e
      | ok rows ↦ ok (record challenge { prerequisites = rows })
    ]

-- A null in a column that is NOT NULL.
unfoldable pub null_challenge_column : ChallengePatch → Bool
null_challenge_column patch =
    sets_null patch.slug
    || (sets_null patch.title
        || (sets_null patch.category
            || (sets_null patch.description_md
                || (sets_null patch.scoring_type
                    || (sets_null patch.decay
                        || (sets_null patch.visible || sets_null patch.max_attempts))))))

-- `sorted(payload.model_fields_set)`
unfoldable pub challenge_fields : ChallengePatch → List String
unfolding named
challenge_fields patch = named "category" (is_some patch.category) (
    named "connection_info" (is_some patch.connection_info) (
      named "decay" (is_some patch.decay) (
        named "description_md" (is_some patch.description_md) (
          named "flag" (is_some patch.flag) (
            named "initial_points" (is_some patch.initial_points) (
              named "max_attempts" (is_some patch.max_attempts) (
                named "minimum_points" (is_some patch.minimum_points) (
                  named "prerequisite_ids" (is_some patch.prerequisite_ids) (
                    named "scoring_type" (is_some patch.scoring_type) (
                      named "slug" (is_some patch.slug) (
                        named "title" (is_some patch.title) (
                          named "visible" (is_some patch.visible)
                            (named "visible_at" (is_some patch.visible_at) [])))))))))))))
