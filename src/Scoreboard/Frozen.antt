-- ===== src/Scoreboard/Frozen.antt =====
-- What is solved after the freeze does not show on the frozen board.
use ctfnight.Base.{
  ℕ, ◌≡◌, refl, Bool, false, ◌&&◌, some, List, [], ◌∷◌, arith, ◌==◌, leb, select_all, insert_row,
  map, select_all_unseen, contains, count_where_unseen, select_all_congr, Option-cases, inl, inr,
  ap, ◌∙◌,
}
use ctfnight.Model.{Db, Event, Team, Solve, ScoreEvent, is_award}
use ctfnight.Scoreboard.Totals.{
  Sql, event_challenge, counted_solves, of_team, awarded, points_of_solve, team_total, team_totals,
  within, each, counts, is_counted_award,
}
use ctfnight.Scoreboard.Ranking.{public_scoreboard, ranking_rows, cutoff_at, board_name, RankingRow}

-- The database after a solve later than the cutoff, with a score event that is no award.
pub record IsLate (d after : Db) (cutoff : ℕ) : Type 0 where
  pub solve : Solve
  pub score_event : ScoreEvent
  pub late : leb solve.solved_at cutoff ≡ false
  pub no_award : is_award score_event.kind ≡ false
  pub solves : after.solves ≡ insert_row solve d.solves
  pub score_events : after.score_events ≡ insert_row score_event d.score_events
  pub challenges : after.challenges ≡ d.challenges
  pub teams : after.teams ≡ d.teams
  pub users : after.users ≡ d.users

each_congr :
    {A : Type 0} (f g : A → ℕ) (xs : List A) → ((x : A) → f x ≡ g x) → each f xs ≡ each g xs
unfolding each
each_congr f g [] same = refl
each_congr f g (x ∷ xs) same = rw (same x, each_congr f g xs same) refl

map_congr :
    (f g : Team → RankingRow) (ts : List Team) → ((t : Team) → f t ≡ g t) → map f ts ≡ map g ts
map_congr f g [] same = refl
map_congr f g (t ∷ ts) same = rw (same t, map_congr f g ts same) refl

module _ (event_id cutoff : ℕ) (d after : Db) (l : IsLate d after cutoff) where
  event_challenge-late :
      (id : ℕ) → event_challenge event_id id after ≡ event_challenge event_id id d
  unfolding event_challenge
  event_challenge-late id = rw l.challenges refl

  counted_solves-late :
      (id : ℕ) → counted_solves (some cutoff) id after ≡ counted_solves (some cutoff) id d
  unfolding counted_solves
  counted_solves-late id =
      let p : Solve → Bool = λ x. x.challenge_id == id && within (some cutoff) x.solved_at in
      rw l.solves (count_where_unseen p p l.solve (λ y. refl) (ground (arith, l.late)) d.solves)

  counts-late :
      (x : Solve) → counts event_id (some cutoff) after x ≡ counts event_id (some cutoff) d x
  unfolding counts
  counts-late x = rw (event_challenge-late x.challenge_id) refl

  of_team-late :
      (a : ℕ) (x : Solve)
      → of_team event_id (some cutoff) a after x ≡ of_team event_id (some cutoff) a d x
  unfolding of_team
  of_team-late a x = rw (event_challenge-late x.challenge_id) refl

  of_team-out : (a : ℕ) → of_team event_id (some cutoff) a d l.solve ≡ false
  unfolding of_team
  of_team-out a = ground (arith, l.late)

  awarded-out : (a : ℕ) → awarded event_id (some cutoff) a l.score_event ≡ false
  unfolding awarded
  awarded-out a = ground (arith, l.no_award)

  team_totals-late : team_totals event_id (some cutoff) after ≡ team_totals event_id (some cutoff) d
  unfolding team_totals
  team_totals-late =
      let p = counts event_id (some cutoff) after in
      let p' = counts event_id (some cutoff) d in
      let w = is_counted_award event_id (some cutoff) in
      let solved : select_all p after.solves ≡ select_all p' d.solves =
        ap (select_all p) l.solves
        ∙ select_all_unseen p p' l.solve counts-late (ground (arith, l.late)) d.solves in
      let prizes : select_all w after.score_events ≡ select_all w d.score_events =
        ap (select_all w) l.score_events
        ∙ select_all_unseen w w l.score_event (λ y. refl) (ground (arith, l.no_award))
            d.score_events in
      rw (solved, prizes) refl

  module _ (q : Sql) where
    points_of_solve-late :
        (x : Solve)
        → points_of_solve q event_id (some cutoff) after x
          ≡ points_of_solve q event_id (some cutoff) d x
    unfolding points_of_solve
    points_of_solve-late x = elim (Option-cases (event_challenge event_id x.challenge_id d)) [
      | inl e ↦ rw (event_challenge-late x.challenge_id, e, points_of_solve) refl
      | inr (c, e) ↦
          rw (event_challenge-late x.challenge_id, e, points_of_solve)
            (rw (counted_solves-late x.challenge_id) refl)
    ]

    team_total-late :
        (a : ℕ)
        → team_total q event_id (some cutoff) after a ≡ team_total q event_id (some cutoff) d a
    unfolding team_total
    team_total-late a =
        let p = of_team event_id (some cutoff) a after in
        let p' = of_team event_id (some cutoff) a d in
        let w = awarded event_id (some cutoff) a in
        let solved : select_all p after.solves ≡ select_all p' d.solves =
          ap (select_all p) l.solves
          ∙ select_all_unseen p p' l.solve (of_team-late a) (of_team-out a) d.solves in
        let prizes : select_all w after.score_events ≡ select_all w d.score_events =
          ap (select_all w) l.score_events
          ∙ select_all_unseen w w l.score_event (λ y. refl) (awarded-out a) d.score_events in
        rw
          (
            solved,
            prizes,
            each_congr (points_of_solve q event_id (some cutoff) after)
                (points_of_solve q event_id (some cutoff) d) (select_all p' d.solves)
                points_of_solve-late,
          )
          refl

board_name-late :
    (event : Event) (t : Team) (d after : Db)
    → after.users ≡ d.users
    → board_name event t after ≡ board_name event t d
unfolding board_name
board_name-late event t d after e = rw e refl

same_rows :
    (q : Sql) (event : Event) (now cutoff : ℕ) (d after : Db)
    → cutoff_at event now ≡ some cutoff
    → IsLate d after cutoff
    → ranking_rows q event (cutoff_at event now) after
      ≡ ranking_rows q event (cutoff_at event now) d
unfolding ranking_rows
same_rows q event now cutoff d after e l =
    let row : Db → Team → RankingRow = λ base t. record {
      team_id = t.id;
      team_name = board_name event t base;
      total = team_total q event.id (some cutoff) base t.id;
    } in
    let p : Db → Team → Bool = λ base t. contains t.id (team_totals event.id (some cutoff) base) in
    let same : (t : Team) → row after t ≡ row d t = λ t.
      rw (board_name-late event t d after l.users, team_total-late event.id cutoff d after l q t.id)
        refl in
    let chosen : select_all (p after) after.teams ≡ select_all (p d) d.teams =
      ap (select_all (p after)) l.teams
      ∙ select_all_congr (p after) (p d) d.teams
          (λ t. ap (contains t.id) (team_totals-late event.id cutoff d after l)) in
    rw e
      (ap (map (row after)) chosen ∙ map_congr (row after) (row d) (select_all (p d) d.teams) same)

same_total :
    (event : Event) (now cutoff : ℕ) (d after : Db)
    → cutoff_at event now ≡ some cutoff
    → IsLate d after cutoff
    → team_totals event.id (cutoff_at event now) after
      ≡ team_totals event.id (cutoff_at event now) d
same_total event now cutoff d after e l = rw e (team_totals-late event.id cutoff d after l)

-- The board of an event with this cutoff is the same, whether its count was made before or after.
pub public_scoreboard-late :
    (q : Sql) (event : Event) (now cutoff : ℕ) (d after : Db)
    → cutoff_at event now ≡ some cutoff
    → IsLate d after cutoff
    → (public_scoreboard q d after event now ≡ public_scoreboard q d d event now)
      × (public_scoreboard q after after event now ≡ public_scoreboard q d d event now)
unfolding public_scoreboard
public_scoreboard-late q event now cutoff d after e l =
    let rows = same_rows q event now cutoff d after e l in
    (rw rows refl, rw (rows, same_total event now cutoff d after e l) refl)
