-- ===== src/Scoreboard/Ranked.antt =====
-- The entries of the public scoreboard are in order, numbered, and all the teams that scored.
use ctfnight.Base.{
  ℕ, zero, suc, ◌+◌, ◌≤◌, ◌≡◌, refl, ap, ◌∙◌, contains, count_where_congr, Bool, true, false, ◌&&◌,
  Option, none, some, List, [], ◌∷◌, arith, ◌==◌, leb, ltb, if◌then◌else◌, select_all, sort_by,
  in_order, in_order-sort_by, in_order-limit, limit, length, map, min, count_where,
  count_where-sort_by, count_where-select_all,
}
use ctfnight.Model.{Db, Event, Team, BoardEntry}
use ctfnight.Scoreboard.Totals.{Sql, team_totals, team_total}
use ctfnight.Scoreboard.Scored.{has_scored, HasTeams, contains-team_totals, length-team_totals}
use ctfnight.Scoreboard.Ranking.{
  RankingRow, ranked_before, time_before, ranking_rows, enumerated, cutoff_at, public_scoreboard,
  max_public_scoreboard_entries, board_name,
}

-- The team that solved last stands behind, one without a solve before the others.
abbrev pub no_later : Option ℕ → Option ℕ → Bool
no_later none b = true
no_later (some a) none = false
no_later (some a) (some b) = leb a b

-- More points, or as many and more solves, or as many of both and no later.
abbrev pub outranks : ℕ → ℕ → Option ℕ → ℕ → ℕ → Option ℕ → Bool
outranks score solves time score' solves' time' =
    if score == score'
    then if solves == solves' then no_later time time' else ltb solves' solves
    else ltb score' score

abbrev pub ahead : BoardEntry → BoardEntry → Bool
ahead a b = outranks a.score a.solves a.last_solve_at b.score b.solves b.last_solve_at

abbrev row_ahead : RankingRow → RankingRow → Bool
row_ahead a b =
    outranks a.total.score a.total.solves a.total.last_solve_at b.total.score b.total.solves
      b.total.last_solve_at

-- Ranks count up from the first, and each entry is ahead of the next.
unfoldable pub is_ranked : ℕ → List BoardEntry → Bool
is_ranked rank [] = true
is_ranked rank (e ∷ []) = e.rank == rank
is_ranked rank (e ∷ f ∷ es) = e.rank == rank && (ahead e f && is_ranked (rank + 1) (f ∷ es))

time_before-no_later :
    (a b : Option ℕ) (tie : Bool)
    → (time_before a b tie ≡ true → no_later a b ≡ true)
      × (time_before a b tie ≡ false → no_later b a ≡ true)
unfolding time_before
time_before-no_later none none tie = ground arith
time_before-no_later none (some b) tie = ground arith
time_before-no_later (some a) none tie = ground arith
time_before-no_later (some a) (some b) tie = ground arith

module _ (q : Sql) where
  ranked_before-ahead :
      (a b : RankingRow)
      → (ranked_before q a b ≡ true → row_ahead a b ≡ true)
        × (ranked_before q a b ≡ false → row_ahead b a ≡ true)
  unfolding ranked_before
  ranked_before-ahead a b = ground (
    arith,
    time_before-no_later a.total.last_solve_at b.total.last_solve_at
        (q.text_le (q.lower a.team_name) (q.lower b.team_name)),
  )

enumerated-ranked :
    (rank : ℕ) (rs : List RankingRow)
    → in_order row_ahead rs ≡ true
    → is_ranked rank (enumerated rank rs) ≡ true
unfolding in_order enumerated is_ranked
enumerated-ranked rank [] o = refl
enumerated-ranked rank (a ∷ []) o = ground arith
enumerated-ranked rank (a ∷ b ∷ rs) o = ground (arith, enumerated-ranked (rank + 1) (b ∷ rs))

length-limit : (n : ℕ) (rs : List RankingRow) → length (limit n rs) ≡ min n (length rs)
unfolding limit
length-limit zero rs = omega arith
length-limit (suc n) [] = omega arith
length-limit (suc n) (a ∷ rs) = omega (arith, length-limit n rs)

length-enumerated : (rank : ℕ) (rs : List RankingRow) → length (enumerated rank rs) ≡ length rs
unfolding enumerated
length-enumerated rank [] = refl
length-enumerated rank (a ∷ rs) = omega (arith, length-enumerated (rank + 1) rs)

count_where-all : (rs : List RankingRow) → length rs ≡ count_where (λ _. true) rs
unfolding count_where
count_where-all [] = refl
count_where-all (a ∷ rs) = omega (arith, count_where-all rs)

length-map : (row : Team → RankingRow) (ts : List Team) → length (map row ts) ≡ length ts
length-map row [] = refl
length-map row (t ∷ ts) = omega (arith, length-map row ts)

length-select_all : (p : Team → Bool) (ts : List Team) → length (select_all p ts) ≡ count_where p ts
unfolding select_all count_where
length-select_all p [] = refl
length-select_all p (t ∷ ts) = ground (arith, length-select_all p ts)

-- Without a cut the list is whole.
limit_all : (n : ℕ) (rs : List RankingRow) → length rs ≤ n → limit n rs ≡ rs
unfolding limit
limit_all zero [] h = refl
limit_all zero (a ∷ rs) h = absurd (omega arith)
limit_all (suc n) [] h = refl
limit_all (suc n) (a ∷ rs) h = rw (limit_all n rs (omega arith)) refl

count_where-enumerated :
    (a rank : ℕ) (rs : List RankingRow)
    → count_where (λ (e : BoardEntry). e.team_id == a) (enumerated rank rs)
      ≡ count_where (λ (r : RankingRow). r.team_id == a) rs
unfolding count_where enumerated
count_where-enumerated a rank [] = refl
count_where-enumerated a rank (r ∷ rs) = omega (arith, count_where-enumerated a (rank + 1) rs)

count_where-map :
    (a : ℕ) (row : Team → RankingRow) (ts : List Team)
    → ((t : Team) → (row t).team_id ≡ t.id)
    → count_where (λ (r : RankingRow). r.team_id == a) (map row ts)
      ≡ count_where (λ (t : Team). t.id == a) ts
unfolding count_where
count_where-map a row [] same = refl
count_where-map a row (t ∷ ts) same = ground (arith, same t, count_where-map a row ts same)

sorted_length :
    (q : Sql) (rows : List RankingRow) → length (sort_by (ranked_before q) rows) ≡ length rows
sorted_length q rows = omega (
  arith,
  count_where-all (sort_by (ranked_before q) rows),
  count_where-all rows,
  count_where-sort_by (ranked_before q) (λ _. true) rows,
)

-- A row for each team that scored.
ranking_rows-length :
    (q : Sql) (event : Event) (cutoff : Option ℕ) (d : Db)
    → length (ranking_rows q event cutoff d)
      ≡ count_where (λ (t : Team). has_scored event.id cutoff d t.id) d.teams
unfolding ranking_rows
ranking_rows-length q event cutoff d =
    let p : Team → Bool = λ t. contains t.id (team_totals event.id cutoff d) in
    length-map _ (select_all p d.teams)
    ∙ length-select_all p d.teams
    ∙ count_where_congr _ _ d.teams (λ (t : Team). contains-team_totals event.id cutoff d t.id)

-- The board counts its ranks up from 1, each entry is ahead of the next, and there are as many entries
-- as teams that have a solve or an active award in time in the database of the ranking, but no more
-- than 1000.
pub public_scoreboard-ranked :
    (q : Sql) (counted d : Db) (event : Event) (now : ℕ)
    → (is_ranked 1 (public_scoreboard q counted d event now).entries ≡ true)
      × (length (public_scoreboard q counted d event now).entries
          ≡ min max_public_scoreboard_entries (
              count_where (λ (t : Team). has_scored event.id (cutoff_at event now) d t.id) d.teams))
unfolding public_scoreboard
public_scoreboard-ranked q counted d event now =
    let rows = ranking_rows q event (cutoff_at event now) d in
    let sorted = sort_by (ranked_before q) rows in
    let top = limit max_public_scoreboard_entries sorted in
    (
      enumerated-ranked 1 top (
          in_order-limit row_ahead max_public_scoreboard_entries sorted
            (in_order-sort_by row_ahead (ranked_before q) (ranked_before-ahead q) rows)),
      omega (
        arith,
        sorted_length q rows,
        length-enumerated 1 top,
        length-limit max_public_scoreboard_entries sorted,
        ranking_rows-length q event (cutoff_at event now) d,
      ),
    )

-- Where each solve and each score event of the database of the count is of exactly one team, the
-- board's total is the number of teams that have a solve or an active award in time there, and the
-- board says that it is truncated exactly if these are more than 1000.
pub public_scoreboard_total :
    (q : Sql) (counted d : Db) (event : Event) (now : ℕ)
    → HasTeams counted
    → let scored =
        count_where
          (λ (t : Team). has_scored event.id (cutoff_at event now) counted t.id)
          counted.teams in
      ((public_scoreboard q counted d event now).total_entries ≡ scored)
      × ((public_scoreboard q counted d event now).truncated
          ≡ ltb max_public_scoreboard_entries scored)
unfolding public_scoreboard
public_scoreboard_total q counted d event now teams =
    let total = length-team_totals event.id (cutoff_at event now) counted teams in
    (total, ap (ltb max_public_scoreboard_entries) total)

-- Where no more than 1000 teams have a solve or an active award in time, the board has each team as
-- often as teams with this id have one.
pub public_scoreboard_complete :
    (q : Sql) (counted d : Db) (event : Event) (now a : ℕ)
    → count_where (λ (t : Team). has_scored event.id (cutoff_at event now) d t.id) d.teams
      ≤ max_public_scoreboard_entries
    → count_where
        (λ (e : BoardEntry). e.team_id == a)
        (public_scoreboard q counted d event now).entries
      ≡ count_where
          (λ (t : Team). has_scored event.id (cutoff_at event now) d t.id && t.id == a)
          d.teams
unfolding public_scoreboard ranking_rows
public_scoreboard_complete q counted d event now a few =
    let cutoff = cutoff_at event now in
    let rows = ranking_rows q event cutoff d in
    let sorted = sort_by (ranked_before q) rows in
    let p : RankingRow → Bool = λ r. r.team_id == a in
    let listed : Team → Bool = λ t. contains t.id (team_totals event.id cutoff d) in
    let fits : length sorted ≤ max_public_scoreboard_entries =
      omega (arith, few, sorted_length q rows, ranking_rows-length q event cutoff d) in
    let same =
      count_where_congr (λ (t : Team). listed t && t.id == a)
        (λ (t : Team). has_scored event.id cutoff d t.id && t.id == a) d.teams
        (λ t. ap (λ b. b && t.id == a) (contains-team_totals event.id cutoff d t.id)) in
    rw (limit_all max_public_scoreboard_entries sorted fits) (
      omega (
        arith,
        same,
        count_where-enumerated a 1 sorted,
        count_where-sort_by (ranked_before q) p rows,
        count_where-map a
            (λ (t : Team). record {
              team_id = t.id;
              team_name = board_name event t d;
              total = team_total q event.id cutoff d t.id;
            })
            (select_all listed d.teams) (λ t. refl),
        count_where-select_all (λ (t : Team). t.id == a) listed d.teams,
      ))
