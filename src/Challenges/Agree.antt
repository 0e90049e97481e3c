-- ===== src/Challenges/Agree.antt =====
-- The list of challenges and the single challenge agree.
use ctfnight.Base.{
  ℕ, ◌≡◌, refl, inl, inr, String, Bool, true, ◌&&◌, Option, none, some, List, [], ◌∷◌, ok, err, api,
  Code, arith, ◌==◌, if◌then◌else◌, is_some, contains, select_all, sort_by, map, Bool-cases,
  count_where-sort_by, count_where-select_all, count_where_found, count_where_congr,
}
use ctfnight.Model.{Db, User, Event, Challenge, Solve}
use ctfnight.Event.{state_allows_challenge_access}
use ctfnight.Scoring.{Floats}
use ctfnight.Access.{Request, require_user, current_event}
use ctfnight.Prerequisites.Loaded.{contains-map, with_id}
use ctfnight.Submit.{find_challenge, visibility_context, is_accessible, all_in}
use ctfnight.Challenges.{
  ids_of, event_rows, challenge_stats, in_list, list_item, list_challenges, detail_item, challenges,
  challenge_detail, team_of, list_before,
}

-- A challenge of the event has its id among those of the list.
listed :
    (text_le : String → String → Bool) (event : Event) (d : Db) (a : ℕ)
    → is_some (find_challenge a event.id d) ≡ true
    → contains a (ids_of (event_rows text_le event d)) ≡ true
unfolding find_challenge event_rows
listed text_le event d a h =
    let of_event : Challenge → Bool = λ c. c.event_id == event.id in
    let rows = select_all of_event d.challenges in
    let found =
      count_where_found (λ (c : Challenge). c.id == a && c.event_id == event.id) d.challenges h in
    ground (
      arith,
      contains-map a (sort_by (list_before text_le) rows),
      count_where-sort_by (list_before text_le) (with_id a) rows,
      count_where-select_all (with_id a) of_event d.challenges,
      count_where_congr (λ (c : Challenge). of_event c && with_id a c)
          (λ (c : Challenge). c.id == a && c.event_id == event.id) d.challenges (λ c. ground arith),
    )

-- Of a challenge in the list, the team's solves say the same with and without the restriction to it.
same_solved :
    (ids : List ℕ) (team_id a : ℕ) (xs : List Solve)
    → contains a ids ≡ true
    → contains a (
        map
          (λ (x : Solve). x.challenge_id)
          (select_all (λ (x : Solve). x.team_id == team_id && contains x.challenge_id ids) xs))
      ≡ contains a (
          map (λ (x : Solve). x.challenge_id) (select_all (λ (x : Solve). x.team_id == team_id) xs))
unfolding contains select_all
same_solved ids team_id a [] h = refl
same_solved ids team_id a (x ∷ xs) h = elim (Bool-cases (x.challenge_id == a)) [
  | inl e ↦
      let one : x.challenge_id ≡ a = ground arith in
      let here : contains x.challenge_id ids ≡ true = rw one h in
      ground (arith, same_solved ids team_id a xs)
  | inr e ↦ ground (arith, same_solved ids team_id a xs)
]

solved-stats :
    (ids : List ℕ) (team_id : Option ℕ) (d : Db) (a : ℕ)
    → contains a ids ≡ true
    → contains a (challenge_stats ids team_id d).solved_ids
      ≡ contains a (visibility_context team_id d)
unfolding challenge_stats visibility_context
solved-stats ids none d a h = refl
solved-stats ids (some team_id) d a h = same_solved ids team_id a d.solves h

same_all_in :
    (xs s t : List ℕ)
    → ((a : ℕ) → contains a xs ≡ true → contains a s ≡ contains a t)
    → all_in xs s ≡ all_in xs t
unfolding all_in contains
same_all_in [] s t h = refl
same_all_in (x ∷ xs) s t h =
    let here : contains x s ≡ contains x t = h x (ground arith) in
    rw (here, same_all_in xs s t (λ a m. h a (ground arith))) refl

same_accessible :
    (c : Challenge) (s t : List ℕ) (now : ℕ)
    → ((a : ℕ) → contains a c.prerequisites ≡ true → contains a s ≡ contains a t)
    → is_accessible c s now ≡ is_accessible c t now
unfolding is_accessible
same_accessible c s t now h = rw (same_all_in c.prerequisites s t h) refl

alone : (a : ℕ) → contains a (a ∷ []) ≡ true
unfolding contains
alone a = ground arith

same_counts :
    (ids : List ℕ) (team_id : Option ℕ) (d : Db) (a : ℕ)
    → contains a ids ≡ true
    → ((challenge_stats ids team_id d).solve_counts a
        ≡ (challenge_stats (a ∷ []) team_id d).solve_counts a)
      × ((challenge_stats ids team_id d).attempt_counts a
          ≡ (challenge_stats (a ∷ []) team_id d).attempt_counts a)
unfolding challenge_stats
same_counts ids none d a h = rw (h, alone a) (refl, refl)
same_counts ids (some team_id) d a h = rw (h, alone a) (refl, refl)

-- The single challenge is the item of the list, or a 404 where the list has none.
detail_item-list_item :
    (f : Floats) (text_le : String → String → Bool) (now : ℕ) (event : Event) (team_id : Option ℕ)
    (d : Db) (c : Challenge)
    → contains c.id (ids_of (event_rows text_le event d)) ≡ true
    → ((a : ℕ)
        → contains a c.prerequisites ≡ true
        → contains a (ids_of (event_rows text_le event d)) ≡ true)
    → detail_item f now team_id d c ≡ (
        if in_list f text_le now event team_id d c
        then ok (list_item f text_le now event team_id d c)
        else err (api 404 Code.challenge_not_found))
unfolding detail_item in_list list_item
detail_item-list_item f text_le now event team_id d c own all =
    let ids = ids_of (event_rows text_le event d) in
    let (solves, attempts) = same_counts ids team_id d c.id own in
    rw
      (
        same_accessible c (challenge_stats ids team_id d).solved_ids (visibility_context team_id d)
            now (λ a m. solved-stats ids team_id d a (all a m)),
        solved-stats ids team_id d c.id own,
        solves,
        attempts,
      )
      refl

-- For a caller who may see challenges, and a challenge whose prerequisites are of the same event, the single
-- challenge is what the list shows of it, and a 404 exactly if the list does not show it.
pub challenge_detail-challenges :
    (f : Floats) (text_le : String → String → Bool) (request : Request) (d : Db) (user : User)
    (event : Event) (c : Challenge)
    → require_user request d ≡ ok user
    → current_event d ≡ some event
    → state_allows_challenge_access event request.now ≡ true
    → find_challenge c.id event.id d ≡ some c
    → ((a : ℕ) → contains a c.prerequisites ≡ true → is_some (find_challenge a event.id d) ≡ true)
    → (challenges f text_le request d
        ≡ ok (
            map (list_item f text_le request.now event (team_of user.id d) d) (
              select_all
                (in_list f text_le request.now event (team_of user.id d) d)
                (event_rows text_le event d))))
      × (challenge_detail f request c.id d ≡ (
          if in_list f text_le request.now event (team_of user.id d) d c
          then ok (list_item f text_le request.now event (team_of user.id d) d c)
          else err (api 404 Code.challenge_not_found)))
unfolding challenges challenge_detail list_challenges
challenge_detail-challenges f text_le request d user event c caller now_event opened found own = (
  rw (caller, now_event, opened, challenges) refl,
  rw (caller, now_event, opened, found, challenge_detail)
      (detail_item-list_item f text_le request.now event (team_of user.id d) d c
        (listed text_le event d c.id (rw found refl)) (λ a m. listed text_le event d a (own a m))),
)
