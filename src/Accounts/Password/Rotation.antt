-- ===== src/Accounts/Password/Rotation.antt =====
-- A password change ends every other session of its user.
use ctfnight.Base.{
  String, ℕ, ◌*◌, true, Bool-cases, select_all, insert_row, ◌+◌, ◌≤◌, ◌≡◌, refl, ◌∙◌, Bool, List,
  [], ◌∷◌, Result, ok, err, arith, ◌==◌, count_where, delete_where, Result-cases, inl, inr,
}
use ctfnight.Security.{hash_session}
use ctfnight.Journal.{add_coalesced_audit, add_coalesced_outbox}
use ctfnight.Model.{Json, Action, Topic, Target, Db, User, SessionToken}
use ctfnight.Journal.Frame.{add_coalesced_audit-sessions, add_coalesced_outbox-sessions}
use ctfnight.Access.{Request, user_dict, UserView}
use ctfnight.App.{Session, App, ◌>>=◌}
use ctfnight.App.Sequence.{continued}
use ctfnight.Admin.UserStatus.{revoke_sessions}
use ctfnight.Accounts.Sessions.{
  NewSession, new_session, insert_session, drop_excess_sessions, cleanup_expired_sessions, hour,
}
use ctfnight.Accounts.Password.{
  ChangePasswordRequest, PasswordDraw, change_password, rotate_credentials, set_password,
  with_password,
}

abbrev pub owned_by : ℕ → SessionToken → Bool
owned_by user_id s = s.user_id == user_id

pub sessions_of : ℕ → List SessionToken → ℕ
sessions_of user_id xs = count_where (owned_by user_id) xs

sessions_of-delete_where :
    (user_id : ℕ) (q : SessionToken → Bool) (xs : List SessionToken)
    → sessions_of user_id (delete_where q xs) ≤ sessions_of user_id xs
unfolding sessions_of count_where delete_where
sessions_of-delete_where user_id q [] = omega arith
sessions_of-delete_where user_id q (x ∷ xs) = ground (arith, sessions_of-delete_where user_id q xs)

revoked_all :
    (user_id : ℕ) (xs : List SessionToken)
    → sessions_of user_id (delete_where (owned_by user_id) xs) ≡ 0
unfolding sessions_of count_where delete_where
revoked_all user_id [] = refl
revoked_all user_id (x ∷ xs) = ground (arith, revoked_all user_id xs)

cleaned_le :
    (skipped : SessionToken → Bool) (now size user_id : ℕ) (d : Db)
    → sessions_of user_id
        (drop_excess_sessions user_id now (cleanup_expired_sessions skipped now size d)).sessions
      ≤ sessions_of user_id d.sessions
unfolding drop_excess_sessions cleanup_expired_sessions
cleaned_le skipped now size user_id d = omega (
  arith,
  sessions_of-delete_where user_id _ (cleanup_expired_sessions skipped now size d).sessions,
  sessions_of-delete_where user_id _ d.sessions,
)

-- The session of this draw, and no other of the user.
abbrev pub IsOnlySession : Request → NewSession → ℕ → ℕ → List SessionToken → Type 0
IsOnlySession request draw locked user_id xs =
    (row : SessionToken) × (select_all (owned_by user_id) xs ≡ row ∷ [])
    × (row.id ≡ draw.session_id)
    × (row.token_hash ≡ hash_session request.crypto request.settings.secret_key draw.token)
    × (row.expires_at ≡ locked + request.settings.session_ttl_hours * hour)

select_all-none :
    (p : SessionToken → Bool) (xs : List SessionToken) → count_where p xs ≡ 0 → select_all p xs ≡ []
unfolding select_all count_where
select_all-none p [] h = refl
select_all-none p (x ∷ xs) h = ground (arith, select_all-none p xs)

select_all-insert_row :
    (p : SessionToken → Bool) (row : SessionToken) (xs : List SessionToken)
    → select_all p xs ≡ []
    → p row ≡ true
    → select_all p (insert_row row xs) ≡ row ∷ []
unfolding select_all
select_all-insert_row p row [] h mine = rw mine refl
select_all-insert_row p row (x ∷ xs) h mine = elim (Bool-cases (p x)) [
  | inl e ↦ ground arith
  | inr e ↦ rw e (select_all-insert_row p row xs (rw e at h) mine)
]

inserted :
    (row : SessionToken) (d e : Db)
    → insert_session row d ≡ ok e
    → e.sessions ≡ insert_row row d.sessions
unfolding insert_session
inserted row d e h = ground arith

-- The only session after a revocation is the new one.
renewed :
    (request : Request) (draw : NewSession) (user : User) (d e : Db)
    → new_session request draw user (revoke_sessions user.id d) ≡ ok e
    → IsOnlySession request draw request.now user.id e.sessions
unfolding new_session revoke_sessions sessions_of
renewed request draw user d e h =
    let revoked : Db = record d { sessions = delete_where (owned_by user.id) d.sessions } in
    let size = request.settings.session_cleanup_batch_size in
    let row : SessionToken = record {
      id = draw.session_id;
      token_hash = hash_session request.crypto request.settings.secret_key draw.token;
      user_id = user.id;
      credential_version = user.credential_version;
      expires_at = request.now + request.settings.session_ttl_hours * hour;
      last_seen_at = request.now;
      created_at = request.now;
    } in
    let left =
      drop_excess_sessions user.id request.now
        (cleanup_expired_sessions draw.skipped request.now size revoked) in
    let gone : count_where (owned_by user.id) left.sessions ≡ 0 = omega (
      arith,
      cleaned_le draw.skipped request.now size user.id revoked,
      revoked_all user.id d.sessions,
    ) in
    (
      row,
      rw (inserted row left e h) (
          select_all-insert_row (owned_by user.id) row left.sessions
            (select_all-none (owned_by user.id) left.sessions gone) (ground arith)),
      refl,
      refl,
      refl,
    )

from_result :
    {A B : Type 0} (f : A → App B) (r : Result A × Session) (t : Session) (b : B)
    → continued f r ≡ (ok b, t)
    → (a : A) × (u : Session) × (r ≡ (ok a, u)) × (f a u ≡ (ok b, t))
from_result f (ok a, u) t b h = (a, u, refl, h)
from_result f (err x, u) t b h = cc

-- An action in sequence that returns has returned from both of its parts.
returned :
    {A B : Type 0} (m : App A) (f : A → App B) (s t : Session) (b : B)
    → (m >>= f) s ≡ (ok b, t)
    → (a : A) × (u : Session) × (m s ≡ (ok a, u)) × (f a u ≡ (ok b, t))
unfolding ◌>>=◌
returned m f s t b h = from_result f (m s) t b h

-- Where the action answers, its user has just the drawn session in what is committed.
abbrev Renews : Request → PasswordDraw → App UserView → Session → Type 0
Renews request draw m s =
    (t : Session) (reply : UserView)
    → m s ≡ (ok reply, t)
    → IsOnlySession request draw.session draw.locked reply.id t.committed.sessions

Renews-bind :
    {A : Type 0} (request : Request) (draw : PasswordDraw) (m : App A) (f : A → App UserView)
    (s : Session)
    → ((a : A) (u : Session) → Renews request draw (f a) u)
    → Renews request draw (m >>= f) s
Renews-bind request draw m f s k t b h = let (a, u, _, e) = returned m f s t b h in k a u t b e

journal_sessions :
    (now id : ℕ) (d : Db)
    → (add_coalesced_outbox now Topic.user_password_changed Target.user id
        (("user_id", Json.ident id) ∷ [])
        (add_coalesced_audit now id Action.auth_password_changed Target.user id [] d)).sessions
      ≡ d.sessions
journal_sessions now id d =
    add_coalesced_outbox-sessions now Topic.user_password_changed Target.user id
      (("user_id", Json.ident id) ∷ [])
      (add_coalesced_audit now id Action.auth_password_changed Target.user id [] d)
    ∙ add_coalesced_audit-sessions now id Action.auth_password_changed Target.user id [] d

rotate_credentials-Renews :
    (request : Request) (draw : PasswordDraw) (replacement_hash : String) (user : User)
    (s : Session)
    → Renews request draw (rotate_credentials request draw replacement_hash user) s
unfolding rotate_credentials ◌>>=◌ user_dict
rotate_credentials-Renews request draw replacement_hash user s t reply h =
    let at : Request = record request { now = draw.locked } in
    let d = set_password user.id replacement_hash s.db in
    elim (Result-cases (new_session at draw.session user (revoke_sessions user.id d))) [
      | inr (x, e) ↦ ground arith
      | inl (made, e) ↦
          let kept : t.committed.sessions ≡ made.sessions =
            ground (arith, journal_sessions draw.locked user.id made) in
          let same : reply.id ≡ user.id = ground arith in
          rw (kept, same) (renewed at draw.session user d made e)
    ]

change_password-Renews :
    (request : Request) (others : ℕ → Db → Db) (draw : PasswordDraw)
    (payload : ChangePasswordRequest) (s : Session)
    → Renews request draw (change_password request others draw payload) s
unfolding change_password
change_password-Renews request others draw payload s = Renews-bind request draw _ _ s λ _ s₁.
    Renews-bind request draw _ _ s₁ λ _ s₂. Renews-bind request draw _ _ s₂ λ _ s₃.
      Renews-bind request draw _ _ s₃ λ _ s₄. Renews-bind request draw _ _ s₄ λ _ s₅.
        Renews-bind request draw _ _ s₅ λ _ s₆.
          Renews-bind request draw _ _ s₆ λ replacement_hash s₇.
            Renews-bind request draw _ _ s₇ λ locked s₈.
              rotate_credentials-Renews request draw replacement_hash
                (with_password replacement_hash locked) s₈

-- After a successful password change the user has a single committed session: it has the identifier
-- and the hash of the token that this change has drawn, and runs from the change under the lock for as
-- long as the settings say.
pub change_password-one_session :
    (request : Request) (others : ℕ → Db → Db) (draw : PasswordDraw)
    (payload : ChangePasswordRequest) (s t : Session) (reply : UserView)
    → change_password request others draw payload s ≡ (ok reply, t)
    → IsOnlySession request draw.session draw.locked reply.id t.committed.sessions
change_password-one_session request others draw payload s t reply h =
    change_password-Renews request others draw payload s t reply h
