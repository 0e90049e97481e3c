-- ===== src/Challenges.antt =====
-- What participants see of the event and its challenges (backend/src/alpha/routes_participant.py,
-- `challenges`, `challenge_detail`, `get_current_event`). `text_le` is the database's order of texts.
pub mod Agree
use ctfnight.Base.{
  ℕ, String, Bool, true, false, ◌&&◌, Option, none, some, List, [], ◌∷◌, Result, ok, err, api, Code,
  Error, or_raise, ◌==◌, ltb, if◌then◌else◌, str_eq, contains, select_all, sort_by, map,
}
use ctfnight.Model.{Db, Event, Challenge, Membership, Solve, ScoringType}
use ctfnight.Event.{state_allows_challenge_access}
use ctfnight.Scoring.{Floats, challenge_points}
use ctfnight.Prerequisites.{id_of}
use ctfnight.Access.{Request, require_user, membership_for, current_event}
use ctfnight.Submit.{find_challenge, solve_count, attempts_of, visibility_context, is_accessible}

-- A row of `_challenge_dict`: what is shown of a challenge. The flag is not.
pub record ChallengeView : Type 0 where
  pub id : ℕ
  pub slug : String
  pub title : String
  pub category : String
  pub description_md : String
  pub connection_info : Option String
  pub scoring_type : ScoringType
  pub current_points : ℕ
  pub solve_count : ℕ
  pub solved : Bool
  pub max_attempts : ℕ
  pub attempts : ℕ
  pub visible_at : Option ℕ
  pub prerequisite_ids : List ℕ

unfoldable pub challenge_dict : Floats → Challenge → ℕ → ℕ → Bool → ChallengeView
challenge_dict f challenge solves attempts solved = record {
  id = challenge.id;
  slug = challenge.slug;
  title = challenge.title;
  category = challenge.category;
  description_md = challenge.description_md;
  connection_info = challenge.connection_info;
  scoring_type = challenge.scoring_type;
  current_points = challenge_points f challenge solves;
  solve_count = solves;
  solved = solved;
  max_attempts = challenge.max_attempts;
  attempts = attempts;
  visible_at = challenge.visible_at;
  prerequisite_ids = challenge.prerequisites;
}

-- The three results of `_challenge_stats`: two dicts with the default 0, and a set.
pub record ChallengeStats : Type 0 where
  pub solve_counts : ℕ → ℕ
  pub attempt_counts : ℕ → ℕ
  pub solved_ids : List ℕ

attempts_in : List ℕ → Option ℕ → Db → ℕ → ℕ
attempts_in ids none d id = 0
attempts_in ids (some team_id) d id = if contains id ids then attempts_of team_id id d else 0

solved_in : List ℕ → Option ℕ → Db → List ℕ
solved_in ids none d = []
solved_in ids (some team_id) d =
    map (λ (x : Solve). x.challenge_id)
      (select_all (λ (x : Solve). x.team_id == team_id && contains x.challenge_id ids) d.solves)

unfoldable pub challenge_stats : List ℕ → Option ℕ → Db → ChallengeStats
unfolding attempts_in solved_in
challenge_stats ids team_id d = record {
  solve_counts = λ id. if contains id ids then solve_count id d else 0;
  attempt_counts = attempts_in ids team_id d;
  solved_ids = solved_in ids team_id d;
}

-- GET /events/current
unfoldable pub get_current_event : Db → Result Event
get_current_event d = or_raise (current_event d) (api 404 Code.event_not_found)

-- `membership.team_id if membership else None`
abbrev pub team_of : ℕ → Db → Option ℕ
team_of user_id d = elim (membership_for user_id d) [ none ↦ none | some m ↦ some m.team_id ]

-- `category, initial_points, title`
unfoldable pub list_before : (String → String → Bool) → Challenge → Challenge → Bool
list_before text_le a b =
    if str_eq a.category b.category
    then if a.initial_points == b.initial_points
      then text_le a.title b.title
      else ltb a.initial_points b.initial_points
    else text_le a.category b.category

unfoldable pub event_rows : (String → String → Bool) → Event → Db → List Challenge
unfolding list_before
event_rows text_le event d =
    sort_by (list_before text_le)
      (select_all (λ (c : Challenge). c.event_id == event.id) d.challenges)

abbrev pub ids_of : List Challenge → List ℕ
ids_of rows = map id_of rows

module _ (f : Floats) (text_le : String → String → Bool) (now : ℕ) (event : Event)
    (team_id : Option ℕ) (d : Db) where
  abbrev pub list_stats : ChallengeStats
  list_stats = challenge_stats (ids_of (event_rows text_le event d)) team_id d

  -- Whether the list shows a challenge, and what of it.
  unfoldable pub in_list : Challenge → Bool
  in_list c = is_accessible c list_stats.solved_ids now

  unfoldable pub list_item : Challenge → ChallengeView
  unfolding challenge_stats challenge_dict
  list_item c =
      challenge_dict f c (list_stats.solve_counts c.id) (list_stats.attempt_counts c.id)
        (contains c.id list_stats.solved_ids)

  unfoldable pub list_challenges : List ChallengeView
  unfolding in_list list_item event_rows
  list_challenges = map list_item (select_all in_list (event_rows text_le event d))

-- The single challenge, with the team's solves of any event.
unfoldable pub detail_item : Floats → ℕ → Option ℕ → Db → Challenge → Result ChallengeView
unfolding challenge_stats challenge_dict
detail_item f now team_id d c =
    let solved_ids = visibility_context team_id d in
    let stats = challenge_stats (c.id ∷ []) team_id d in
    if is_accessible c solved_ids now
    then ok (
        challenge_dict f c (stats.solve_counts c.id) (stats.attempt_counts c.id)
          (contains c.id solved_ids))
    else err (api 404 Code.challenge_not_found)

-- GET /challenges
unfoldable pub challenges :
    Floats → (String → String → Bool) → Request → Db → Result (List ChallengeView)
unfolding list_challenges
challenges f text_le request d = elim (require_user request d) [
  | err e ↦ err e
  | ok user ↦ elim (current_event d) [
    | none ↦ ok []
    | some event ↦
        if state_allows_challenge_access event request.now
        then ok (list_challenges f text_le request.now event (team_of user.id d) d)
        else ok []
  ]
]

-- GET /challenges/{challenge_id}
unfoldable pub challenge_detail : Floats → Request → ℕ → Db → Result ChallengeView
unfolding detail_item
challenge_detail f request challenge_id d = elim (require_user request d) [
  | err e ↦ err e
  | ok user ↦ elim (current_event d) [
    | none ↦ err (api 404 Code.challenge_not_found)
    | some event ↦
        if state_allows_challenge_access event request.now
        then elim (find_challenge challenge_id event.id d) [
          | none ↦ err (api 404 Code.challenge_not_found)
          | some c ↦ detail_item f request.now (team_of user.id d) d c
        ]
        else err (api 404 Code.challenge_not_found)
  ]
]
