-- ===== src/Scoreboard/Totals.antt =====
-- The totals of the public scoreboard (backend/src/alpha/services.py, `public_scoreboard`). Its points
-- are computed by the database in floats, which are the parameter `Sql`.
use ctfnight.Base.{
  ℕ, ◌+◌, ◌-◌, max, String, Bool, true, ◌&&◌, Option, none, some, List, [], ◌∷◌, ◌==◌, leb,
  if◌then◌else◌, is_some, contains, map, ◌++◌, select_one, select_all, count_where,
}
use ctfnight.Base.Int.{ℤ, pos, negsuc, max_ℤ}
use ctfnight.Model.{Db, Challenge, Solve, ScoreEvent, is_fixed, is_award}

-- `cast(…, Float)` and its arithmetic, `func.round`, `func.lower`, and the order of texts.
pub record Sql : Type 1 where
  pub Float : Type 0
  pub cast : ℤ → Float
  pub minus : Float → Float → Float
  pub times : Float → Float → Float
  pub over : Float → Float → Float
  pub round : Float → ℤ
  pub lower : String → String
  pub text_le : String → String → Bool

-- `solved_at <= cutoff`, where there is a cutoff.
abbrev pub within : Option ℕ → ℕ → Bool
within none at = true
within (some cutoff) at = leb at cutoff

-- A difference of two columns.
abbrev difference : ℕ → ℕ → ℤ
difference a b = if leb b a then pos (a - b) else negsuc (b - a - 1)

unfoldable pub event_challenge : ℕ → ℕ → Db → Option Challenge
event_challenge event_id id d =
    select_one (λ (c : Challenge). c.id == id && c.event_id == event_id) d.challenges

-- `challenge_counts`
unfoldable pub counted_solves : Option ℕ → ℕ → Db → ℕ
counted_solves cutoff challenge_id d =
    count_where (λ (x : Solve). x.challenge_id == challenge_id && within cutoff x.solved_at)
      d.solves

-- `solve_aggregate` is over these solves, grouped by team.
unfoldable pub counts : ℕ → Option ℕ → Db → Solve → Bool
unfolding event_challenge
counts event_id cutoff d x =
    within cutoff x.solved_at && is_some (event_challenge event_id x.challenge_id d)

unfoldable pub of_team : ℕ → Option ℕ → ℕ → Db → Solve → Bool
unfolding counts
of_team event_id cutoff team_id d x = x.team_id == team_id && counts event_id cutoff d x

-- `award_aggregate` is over these score events, grouped by team.
unfoldable pub is_counted_award : ℕ → Option ℕ → ScoreEvent → Bool
is_counted_award event_id cutoff x =
    x.event_id == event_id && (is_award x.kind && (x.active && within cutoff x.created_at))

unfoldable pub awarded : ℕ → Option ℕ → ℕ → ScoreEvent → Bool
unfolding is_counted_award
awarded event_id cutoff team_id x = x.team_id == team_id && is_counted_award event_id cutoff x

unfoldable pub latest_of : List Solve → Option ℕ
latest_of [] = none
latest_of (x ∷ xs) = some (elim (latest_of xs) [ none ↦ x.solved_at | some t ↦ max x.solved_at t ])

unfoldable pub sum : List ℕ → ℕ
sum [] = 0
sum (x ∷ xs) = x + sum xs

unfoldable pub each : {A : Type 0} → (A → ℕ) → List A → List ℕ
each f [] = []
each f (x ∷ xs) = f x ∷ each f xs

pub record TeamTotal : Type 0 where
  pub score : ℕ
  pub solves : ℕ
  pub last_solve_at : Option ℕ

module _ (q : Sql) where
  -- `rounded_dynamic_points`, and `dynamic_score` that is at least the minimum.
  unfoldable pub dynamic_score : Challenge → ℕ → ℕ
  dynamic_score c solve_count =
      let n = q.cast (pos solve_count) in
      let decay = q.cast (pos c.decay) in
      max_ℤ c.minimum_points (
        q.round (
          q.minus (q.cast (pos c.initial_points)) (
            q.over (q.times (q.times (q.cast (difference c.initial_points c.minimum_points)) n) n)
              (q.times decay decay))))

  unfoldable pub solve_points : Challenge → ℕ → ℕ
  unfolding dynamic_score
  solve_points c solve_count =
      if is_fixed c.scoring_type then c.initial_points else dynamic_score c solve_count

  -- The points of one solve: of its challenge, at the challenge's count.
  unfoldable pub points_of_solve : ℕ → Option ℕ → Db → Solve → ℕ
  unfolding solve_points event_challenge counted_solves
  points_of_solve event_id cutoff d x = elim (event_challenge event_id x.challenge_id d) [
    | none ↦ 0
    | some c ↦ solve_points c (counted_solves cutoff x.challenge_id d)
  ]

  -- A row of `team_totals`: the union of the two aggregates, summed up.
  unfoldable pub team_total : ℕ → Option ℕ → Db → ℕ → TeamTotal
  unfolding points_of_solve of_team awarded latest_of sum each
  team_total event_id cutoff d team_id =
      let solves = select_all (of_team event_id cutoff team_id d) d.solves in
      record {
        score =
            sum (each (points_of_solve event_id cutoff d) solves)
            + sum (
                each (λ (x : ScoreEvent). x.points)
                  (select_all (awarded event_id cutoff team_id) d.score_events));
        solves = count_where (λ _. true) solves;
        last_solve_at = latest_of solves;
      }

-- `GROUP BY`: one group for each key.
unfoldable pub groups : List ℕ → List ℕ
groups [] = []
groups (x ∷ xs) = let rest = groups xs in if contains x xs then rest else x ∷ rest

-- The keys of `team_totals`: the teams of the union of the two aggregates.
unfoldable pub team_totals : ℕ → Option ℕ → Db → List ℕ
unfolding counts is_counted_award groups
team_totals event_id cutoff d = groups (
    map (λ (x : Solve). x.team_id) (select_all (counts event_id cutoff d) d.solves)
    ++ map (λ (x : ScoreEvent). x.team_id)
        (select_all (is_counted_award event_id cutoff) d.score_events))
