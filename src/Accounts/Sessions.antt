-- ===== src/Accounts/Sessions.antt =====
-- `_new_session` and the cleanup of expired sessions (backend/src/alpha/routes_auth.py). A row that
-- another transaction has locked is skipped by the cleanup: `skipped` says which those are.
pub mod Cap
use ctfnight.Base.{
  ℕ, ◌+◌, ◌-◌, ◌*◌, String, Bool, true, false, ◌&&◌, ◌||◌, not, List, [], ◌∷◌, Result, ok, err,
  Error, ◌==◌, leb, ltb, str_eq, if◌then◌else◌, is_some, select_one, select_all, delete_where,
  insert_row, sort_by, limit, offset,
}
use ctfnight.Model.{Db, User, SessionToken}
use ctfnight.Security.{hash_session}
use ctfnight.Access.{Request}

abbrev pub max_active_sessions_per_user : ℕ
max_active_sessions_per_user = 10

-- An hour in microseconds.
abbrev pub hour : ℕ
hour = 3600000000

unfoldable pub has_id : List SessionToken → SessionToken → Bool
has_id [] x = false
has_id (y ∷ ys) x = x.id == y.id || has_id ys x

sooner : SessionToken → SessionToken → Bool
sooner a b = leb a.expires_at b.expires_at

-- `expired_session_cleanup_statement`
unfoldable pub cleanup_expired_sessions : (SessionToken → Bool) → ℕ → ℕ → Db → Db
unfolding sooner
cleanup_expired_sessions skipped now batch_size d =
    let expired = select_all (λ s. leb s.expires_at now && not (skipped s)) d.sessions in
    record d {
      sessions = delete_where (has_id (limit batch_size (sort_by sooner expired))) d.sessions;
    }

abbrev pub is_active_of : ℕ → ℕ → SessionToken → Bool
is_active_of user_id now s = s.user_id == user_id && ltb now s.expires_at

-- `created_at.desc(), id.desc()`
unfoldable pub newest_first : SessionToken → SessionToken → Bool
newest_first a b = ltb b.created_at a.created_at || (a.created_at == b.created_at && leb b.id a.id)

unfoldable pub excess_sessions : ℕ → ℕ → Db → List SessionToken
excess_sessions user_id now d =
    offset (max_active_sessions_per_user - 1)
      (sort_by newest_first (select_all (is_active_of user_id now) d.sessions))

unfoldable pub drop_excess_sessions : ℕ → ℕ → Db → Db
drop_excess_sessions user_id now d = record d {
  sessions = delete_where (has_id (excess_sessions user_id now d)) d.sessions;
}

-- Primary key and the unique `token_hash`.
unfoldable pub insert_session : SessionToken → Db → Result Db
insert_session row d =
    if is_some (select_one (λ (s : SessionToken). s.id == row.id) d.sessions)
      || is_some (select_one (λ (s : SessionToken). str_eq s.token_hash row.token_hash) d.sessions)
    then err Error.integrity_error
    else ok (record d { sessions = insert_row row d.sessions })

-- The identifier and the token that a new session draws, and the rows that its cleanup skips.
pub record NewSession : Type 0 where
  pub session_id : ℕ
  pub token : String
  pub skipped : SessionToken → Bool

unfoldable pub new_session : Request → NewSession → User → Db → Result Db
new_session request draw user d =
    let now = request.now in
    let cleaned =
      cleanup_expired_sessions draw.skipped now request.settings.session_cleanup_batch_size d in
    insert_session
      (record {
        id = draw.session_id;
        token_hash = hash_session request.crypto request.settings.secret_key draw.token;
        user_id = user.id;
        credential_version = user.credential_version;
        expires_at = now + request.settings.session_ttl_hours * hour;
        last_seen_at = now;
        created_at = now;
      })
      (drop_excess_sessions user.id now cleaned)
