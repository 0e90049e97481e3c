-- ===== src/Accounts/Sessions/Cap.antt =====
-- How many active sessions a user can have.
use ctfnight.Base.{
  ℕ, ◌+◌, ◌≤◌, ◌≡◌, refl, Bool, true, ◌&&◌, not, List, [], ◌∷◌, ok, arith, count_where,
  delete_where, select_all, count_where-insert_row, count_where-sort_by, count_where-offset,
  count_where-select_all, sort_by, offset,
}
use ctfnight.Model.{Db, User, SessionToken}
use ctfnight.Access.{Request}
use ctfnight.Accounts.Sessions.{
  NewSession, new_session, insert_session, drop_excess_sessions, excess_sessions, has_id,
  is_active_of, newest_first, cleanup_expired_sessions, max_active_sessions_per_user,
}

unfoldable pub active_sessions : ℕ → ℕ → Db → ℕ
active_sessions user_id now d = count_where (is_active_of user_id now) d.sessions

count_where-delete_where :
    (p q : SessionToken → Bool) (xs : List SessionToken)
    → count_where p (delete_where q xs) ≡ count_where (λ x. p x && not (q x)) xs
unfolding count_where delete_where
count_where-delete_where p q [] = refl
count_where-delete_where p q (x ∷ xs) = ground (arith, count_where-delete_where p q xs)

-- No row of a list is outside of it.
none_outside_grown :
    (xs ys : List SessionToken)
    → ((x : SessionToken) → has_id xs x ≡ true → has_id ys x ≡ true)
    → count_where (λ x. not (has_id ys x)) xs ≡ 0
unfolding count_where has_id
none_outside_grown [] ys h = refl
none_outside_grown (x ∷ xs) ys h =
    ground (arith, h x, none_outside_grown xs ys (λ z e. h z (ground (arith, e))))

drop_excess_lem :
    (user_id now : ℕ) (d : Db)
    → active_sessions user_id now (drop_excess_sessions user_id now d) ≤ 9
unfolding active_sessions drop_excess_sessions excess_sessions
drop_excess_lem user_id now d =
    let active = select_all (is_active_of user_id now) d.sessions in
    let sorted = sort_by newest_first active in
    let excess = offset 9 sorted in
    let outside : SessionToken → Bool = λ x. not (has_id excess x) in
    omega (
      arith,
      count_where-delete_where (is_active_of user_id now) (has_id excess) d.sessions,
      count_where-select_all outside (is_active_of user_id now) d.sessions,
      count_where-sort_by newest_first outside active,
      count_where-offset outside 9 sorted,
      none_outside_grown excess excess (λ x e. e),
    )

insert_session_lem :
    (row : SessionToken) (user_id now : ℕ) (d e : Db)
    → insert_session row d ≡ ok e
    → active_sessions user_id now e ≤ active_sessions user_id now d + 1
unfolding insert_session active_sessions
insert_session_lem row user_id now d e h =
    ground (arith, count_where-insert_row (is_active_of user_id now) row d.sessions)

-- After a new session is made, its user has at most ten sessions that have not expired, however
-- many there were and whichever rows the cleanup skipped.
pub new_session-cap :
    (request : Request) (draw : NewSession) (user : User) (d e : Db)
    → new_session request draw user d ≡ ok e
    → active_sessions user.id request.now e ≤ max_active_sessions_per_user
unfolding new_session
new_session-cap request draw user d e h =
    let cleaned =
      cleanup_expired_sessions draw.skipped request.now request.settings.session_cleanup_batch_size
        d in
    omega (
      arith,
      insert_session_lem _ user.id request.now (drop_excess_sessions user.id request.now cleaned) e
          h,
      drop_excess_lem user.id request.now cleaned,
    )
