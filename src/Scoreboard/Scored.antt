-- ===== src/Scoreboard/Scored.antt =====
-- Which teams the public scoreboard counts, said of the rows, and how many groups its totals have.
use ctfnight.Base.{
  ℕ, ◌+◌, ◌≤◌, ◌≡◌, refl, sym, ◌∙◌, Bool, true, ◌&&◌, not, Option, none, some, List, ◌++◌, arith,
  ◌==◌, leb, ltb, select_all, count_where, contains, length, map, count_where_congr,
}
use ctfnight.Model.{Db, Team, Challenge, Solve, ScoreEvent, is_award}
use ctfnight.Scoreboard.Groups.{
  contains-groups, contains-append, contains-map, is_some-select_one, count_where_and_le,
  length-groups,
}
use ctfnight.Scoreboard.Totals.{counts, is_counted_award, team_totals, event_challenge, within}

-- Not after the freeze, where there is one.
abbrev pub in_time : Option ℕ → ℕ → Bool
in_time none at = true
in_time (some cutoff) at = not (ltb cutoff at)

-- The solves of a team of challenges of the event.
abbrev pub scoring_solves : ℕ → Option ℕ → Db → ℕ → ℕ
scoring_solves event_id cutoff d team_id =
    count_where
      (λ (x : Solve).
        x.team_id == team_id
        && (in_time cutoff x.solved_at
            && leb 1 (
                count_where (λ (c : Challenge). c.id == x.challenge_id && c.event_id == event_id)
                  d.challenges)))
      d.solves

-- The active awards of a team in the event.
abbrev pub scoring_awards : ℕ → Option ℕ → Db → ℕ → ℕ
scoring_awards event_id cutoff d team_id =
    count_where
      (λ (x : ScoreEvent).
        x.team_id == team_id
        && (x.event_id == event_id
            && (is_award x.kind && (x.active && in_time cutoff x.created_at))))
      d.score_events

abbrev pub has_scored : ℕ → Option ℕ → Db → ℕ → Bool
has_scored event_id cutoff d team_id =
    leb 1 (scoring_solves event_id cutoff d team_id + scoring_awards event_id cutoff d team_id)

-- The foreign keys to teams, whose ids are unique.
abbrev pub HasTeams : Db → Type 0
HasTeams d =
    (a : ℕ)
    → 1
      ≤ count_where (λ (x : Solve). x.team_id == a) d.solves
        + count_where (λ (x : ScoreEvent). x.team_id == a) d.score_events
    → count_where (λ (t : Team). t.id == a) d.teams ≡ 1

within_lem : (cutoff : Option ℕ) (at : ℕ) → within cutoff at ≡ in_time cutoff at
within_lem none at = refl
within_lem (some cutoff) at = ground arith

module _ (event_id : ℕ) (cutoff : Option ℕ) (d : Db) where
  counts_lem :
      (a : ℕ) (x : Solve)
      → (x.team_id == a && counts event_id cutoff d x) ≡ (
          x.team_id == a
          && (in_time cutoff x.solved_at
              && leb 1 (
                  count_where
                    (λ (c : Challenge). c.id == x.challenge_id && c.event_id == event_id)
                    d.challenges)))
  unfolding counts event_challenge
  counts_lem a x =
      rw
        (
          within_lem cutoff x.solved_at,
          is_some-select_one (λ (c : Challenge). c.id == x.challenge_id && c.event_id == event_id)
              d.challenges,
        )
        refl

  award_lem :
      (a : ℕ) (x : ScoreEvent)
      → (x.team_id == a && is_counted_award event_id cutoff x) ≡ (
          x.team_id == a
          && (x.event_id == event_id
              && (is_award x.kind && (x.active && in_time cutoff x.created_at))))
  unfolding is_counted_award
  award_lem a x = rw (within_lem cutoff x.created_at) refl

  -- The keys of the union, before they are grouped.
  abbrev keys : List ℕ
  keys =
      map (λ (x : Solve). x.team_id) (select_all (counts event_id cutoff d) d.solves)
      ++ map (λ (x : ScoreEvent). x.team_id)
          (select_all (is_counted_award event_id cutoff) d.score_events)

  contains-keys : (a : ℕ) → contains a keys ≡ has_scored event_id cutoff d a
  contains-keys a = ground (
    arith,
    contains-append a
        (map (λ (x : Solve). x.team_id) (select_all (counts event_id cutoff d) d.solves))
        (map (λ (x : ScoreEvent). x.team_id)
          (select_all (is_counted_award event_id cutoff) d.score_events)),
    contains-map (λ (x : Solve). x.team_id) (counts event_id cutoff d) a d.solves,
    contains-map (λ (x : ScoreEvent). x.team_id) (is_counted_award event_id cutoff) a
        d.score_events,
    count_where_congr _ _ d.solves (counts_lem a),
    count_where_congr _ _ d.score_events (award_lem a),
  )

  -- The totals have a group for exactly the teams that scored.
  pub contains-team_totals :
      (a : ℕ) → contains a (team_totals event_id cutoff d) ≡ has_scored event_id cutoff d a
  unfolding team_totals
  contains-team_totals a = contains-groups a keys ∙ contains-keys a

has_row :
    (event_id : ℕ) (cutoff : Option ℕ) (d : Db) (a : ℕ)
    → has_scored event_id cutoff d a ≡ true
    → 1
      ≤ count_where (λ (x : Solve). x.team_id == a) d.solves
        + count_where (λ (x : ScoreEvent). x.team_id == a) d.score_events
has_row event_id cutoff d a h =
    let solved : scoring_solves event_id cutoff d a
        ≤ count_where (λ (x : Solve). x.team_id == a) d.solves =
      count_where_and_le (λ (x : Solve). x.team_id == a)
        (λ (x : Solve).
          in_time cutoff x.solved_at
          && leb 1 (
              count_where (λ (c : Challenge). c.id == x.challenge_id && c.event_id == event_id)
                d.challenges))
        d.solves in
    let won : scoring_awards event_id cutoff d a
        ≤ count_where (λ (x : ScoreEvent). x.team_id == a) d.score_events =
      count_where_and_le (λ (x : ScoreEvent). x.team_id == a)
        (λ (x : ScoreEvent).
          x.event_id == event_id && (is_award x.kind && (x.active && in_time cutoff x.created_at)))
        d.score_events in
    ground arith

-- The number of groups is the number of teams that scored.
pub length-team_totals :
    (event_id : ℕ) (cutoff : Option ℕ) (d : Db)
    → HasTeams d
    → length (team_totals event_id cutoff d)
      ≡ count_where (λ (t : Team). has_scored event_id cutoff d t.id) d.teams
unfolding team_totals
length-team_totals event_id cutoff d teams =
    length-groups (keys event_id cutoff d) d.teams
      (λ a h. teams a (has_row event_id cutoff d a (sym (contains-keys event_id cutoff d a) ∙ h)))
    ∙ count_where_congr _ _ d.teams (λ (t : Team). contains-keys event_id cutoff d t.id)
