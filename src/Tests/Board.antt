-- ===== src/Tests/Board.antt =====
-- The public scoreboard at concrete inputs.
use ctfnight.Base.{
  ℕ, ◌-◌, ◌*◌, ◌/◌, ◌≤◌, ◌≡◌, refl, true, ◌&&◌, some, ok, [], ◌∷◌, arith, ltb, min, length,
  count_where, ◌==◌, get, select_all, select_one, sort_by, limit,
}
use ctfnight.Base.Int.{ℤ, pos, pos_part}
use ctfnight.Model.{Db, Team, Solve, BoardEntry, Scoreboard, live, frozen}
use ctfnight.Event.{public_scoreboard_is_frozen}
use ctfnight.Access.{current_event}
use ctfnight.Store.{get_counter}
use ctfnight.Scoreboard.Totals.{
  counts, is_counted_award, groups, team_totals, Sql, of_team, awarded, event_challenge, team_total,
  points_of_solve,
}
use ctfnight.Scoreboard.Ranking.{
  public_scoreboard, cutoff_at, max_public_scoreboard_entries, ranking_rows, enumerated,
  ranked_before,
}
use ctfnight.Scoreboard.Ranked.{
  is_ranked, public_scoreboard-ranked, public_scoreboard_total, public_scoreboard_complete,
}
use ctfnight.Scoreboard.Scored.{has_scored, HasTeams}
use ctfnight.Base.{contains}
use ctfnight.Scoreboard.Blind.{write_solve-blind}
use ctfnight.Scoreboard.Serve.{scoreboard, BuildDraw}
use ctfnight.Scoreboard.Current.{IsBoard, IsSound, generation}
use ctfnight.Scoreboard.Served.{scoreboard-IsBoard}
use ctfnight.Submit.{write_solve}
use ctfnight.Tests.Data.{running, warmup, red, event_in, request, on}
use ctfnight.Tests.Scoring.{exact_floats}
use ctfnight.Tests.Submit.{draw, right_flag}

-- Whole numbers for the floats, and texts in no order.
abbrev whole : Sql
whole = record {
  Float = ℤ;
  cast = λ x. x;
  minus = λ a b. pos (pos_part a - pos_part b);
  times = λ a b. pos (pos_part a * pos_part b);
  over = λ a b. pos (pos_part a / pos_part b);
  round = λ x. x;
  lower = λ t. t;
  text_le = λ a b. true;
}

abbrev blue : Team
blue = record red { id = 8; name = "blue" }

abbrev solve_by : ℕ → ℕ → ℕ → Solve
solve_by id team_id at = record {
  id = id;
  team_id = team_id;
  challenge_id = 3;
  user_id = 1;
  submission_id = id;
  solved_at = at;
}

-- The blue team solved first; a later solve of the red team is behind the freeze.
abbrev played : Db
played = record running {
  teams = red ∷ blue ∷ [];
  solves = solve_by 1 7 300 ∷ solve_by 2 8 200 ∷ [];
}

abbrev board : Scoreboard
board = public_scoreboard whole played played (event_in frozen) 600

public_scoreboard-ranked_example :
    (is_ranked 1 board.entries ≡ true)
    × (length board.entries
        ≡ min max_public_scoreboard_entries (
            count_where
              (λ (t : Team). has_scored 1 (cutoff_at (event_in frozen) 600) played t.id)
              played.teams))
public_scoreboard-ranked_example =
    public_scoreboard-ranked whole played played (event_in frozen) 600

one_team_each : HasTeams played
unfolding count_where
one_team_each a h = ground arith

public_scoreboard_total_example :
    let scored =
      count_where
        (λ (t : Team). has_scored 1 (cutoff_at (event_in frozen) 600) played t.id)
        played.teams in
    (board.total_entries ≡ scored) × (board.truncated ≡ ltb max_public_scoreboard_entries scored)
public_scoreboard_total_example =
    public_scoreboard_total whole played played (event_in frozen) 600 one_team_each

few_teams :
    count_where
      (λ (t : Team). has_scored 1 (cutoff_at (event_in frozen) 600) played t.id)
      played.teams
    ≤ max_public_scoreboard_entries
unfolding count_where cutoff_at public_scoreboard_is_frozen
few_teams = omega arith

public_scoreboard_complete_example :
    count_where (λ (e : BoardEntry). e.team_id == 8) board.entries
    ≡ count_where
        (λ (t : Team). has_scored 1 (cutoff_at (event_in frozen) 600) played t.id && t.id == 8)
        played.teams
public_scoreboard_complete_example =
    public_scoreboard_complete whole played played (event_in frozen) 600 8 few_teams

-- The blue team stands first.
blue_first :
    (board.total_entries ≡ 2)
    × (count_where (λ (e : BoardEntry). e.team_id == 8 && e.rank == 1) board.entries ≡ 1)
unfolding public_scoreboard ranking_rows team_totals groups counts is_counted_award contains
    event_challenge select_all select_one cutoff_at public_scoreboard_is_frozen count_where
    enumerated sort_by limit ranked_before team_total points_of_solve of_team awarded
blue_first = (refl, refl)

freeze_cutoff : cutoff_at (event_in frozen) 750 ≡ some 500
unfolding cutoff_at public_scoreboard_is_frozen
freeze_cutoff = refl

write_solve-blind_example :
    let after =
      (write_solve exact_floats request
        (record draw { written = 700; closing = 710 })
        right_flag
        (event_in frozen)
        1
        7
        warmup
        (on running)).1.committed in
    (public_scoreboard whole running after (event_in frozen) 750
      ≡ public_scoreboard whole running running (event_in frozen) 750)
    × (public_scoreboard whole after after (event_in frozen) 750
        ≡ public_scoreboard whole running running (event_in frozen) 750)
write_solve-blind_example =
    write_solve-blind whole (event_in frozen) 750 500 exact_floats request
      (record draw { written = 700; closing = 710 }) right_flag (event_in frozen) 1 7 warmup
      (on running) freeze_cutoff (omega arith) refl

-- Nothing else happens: generation 0 with the one database.
abbrev Still : ℕ → Db → Type 0
Still g d = (g ≡ 0) × (d ≡ running)

running_event : current_event running ≡ some (event_in live)
unfolding current_event
running_event = refl

start-IsSound : IsSound whole 1 Still (on running)
unfolding get_counter get
start-IsSound = record { moment = (refl, refl); boards = λ phase x c h. cc h }

abbrev build_draw : BuildDraw
build_draw = record { token = "lease"; reread = 101; built = 102 }

scoreboard-IsBoard_example :
    ((b : Scoreboard)
      → (scoreboard whole request (λ k s. s) build_draw (on running)).0 ≡ ok b
      → (g : ℕ) × (generation whole 1 Still (on running) ≤ g) × IsBoard whole 1 Still g b)
    × IsSound whole 1 Still (scoreboard whole request (λ k s. s) build_draw (on running)).1
scoreboard-IsBoard_example =
    scoreboard-IsBoard whole request (event_in live) Still (λ k s. s) build_draw (on running)
      (λ k s i. (i, omega arith)) running_event start-IsSound
