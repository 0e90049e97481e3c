-- ===== src/Scoreboard/Ranking.antt =====
-- The ranking of the public scoreboard (backend/src/alpha/services.py, `public_scoreboard`).
use ctfnight.Base.{
  ℕ, ◌+◌, String, Bool, true, false, Option, none, some, List, [], ◌∷◌, ◌==◌, ltb, if◌then◌else◌,
  select_one, select_all, sort_by, limit, length, map, contains,
}
use ctfnight.Model.{Db, User, Team, Event, BoardEntry, Scoreboard, is_individual}
use ctfnight.Event.{public_scoreboard_is_frozen}
use ctfnight.Scoreboard.Totals.{Sql, TeamTotal, team_total, team_totals}

abbrev pub max_public_scoreboard_entries : ℕ
max_public_scoreboard_entries = 1000

-- A row of `ranking_stmt`.
pub record RankingRow : Type 0 where
  pub team_id : ℕ
  pub team_name : String
  pub total : TeamTotal

-- `null_last_first`, then `last_solve_at.asc()`, and on a tie what follows.
unfoldable pub time_before : Option ℕ → Option ℕ → Bool → Bool
time_before none none tie = tie
time_before none (some _) tie = true
time_before (some _) none tie = false
time_before (some a) (some b) tie = if a == b then tie else ltb a b

-- The ORDER BY of the ranking.
unfoldable pub ranked_before : Sql → RankingRow → RankingRow → Bool
unfolding time_before
ranked_before q a b =
    if a.total.score == b.total.score
    then if a.total.solves == b.total.solves
      then time_before a.total.last_solve_at b.total.last_solve_at
          (q.text_le (q.lower a.team_name) (q.lower b.team_name))
      else ltb b.total.solves a.total.solves
    else ltb b.total.score a.total.score

-- In individual mode `coalesce(User.username, …)` of the creator.
unfoldable pub board_name : Event → Team → Db → String
board_name event team d =
    if is_individual event.team_mode
    then elim (select_one (λ (u : User). u.id == team.creator_id) d.users) [
      | none ↦ "개인 참가자"
      | some user ↦ user.username
    ]
    else team.name

-- The teams joined with `team_totals`.
unfoldable pub ranking_rows : Sql → Event → Option ℕ → Db → List RankingRow
unfolding board_name
ranking_rows q event cutoff d =
    map
      (λ (t : Team). record {
        team_id = t.id;
        team_name = board_name event t d;
        total = team_total q event.id cutoff d t.id;
      })
      (select_all (λ (t : Team). contains t.id (team_totals event.id cutoff d)) d.teams)

-- `enumerate(rows, start=rank)`
unfoldable pub enumerated : ℕ → List RankingRow → List BoardEntry
enumerated rank [] = []
enumerated rank (r ∷ rs) =
    record {
      rank = rank;
      team_id = r.team_id;
      team_name = r.team_name;
      score = r.total.score;
      solves = r.total.solves;
      last_solve_at = r.total.last_solve_at;
    }
    ∷ enumerated (rank + 1) rs

-- `freeze_at if frozen else None`
unfoldable pub cutoff_at : Event → ℕ → Option ℕ
cutoff_at event now = if public_scoreboard_is_frozen event now then event.freeze_at else none

-- The two queries, which may see different databases: `total_entries` counts `team_totals` in
-- `counted`, and the ranking is read from `d`.
unfoldable pub public_scoreboard : Sql → Db → Db → Event → ℕ → Scoreboard
unfolding ranking_rows enumerated cutoff_at
public_scoreboard q counted d event now =
    let rows = ranking_rows q event (cutoff_at event now) d in
    let total = length (team_totals event.id (cutoff_at event now) counted) in
    record {
      event_id = event.id;
      event_name = event.name;
      event_state = event.state;
      frozen = public_scoreboard_is_frozen event now;
      generated_at = now;
      total_entries = total;
      truncated = ltb max_public_scoreboard_entries total;
      entries = enumerated 1 (limit max_public_scoreboard_entries (sort_by (ranked_before q) rows));
    }
