-- ===== src/Admin/UserStatus/Revoked.antt =====
-- What a suspension leaves of an account's access.
use ctfnight.Base.{
  String, ℕ, ◌≡◌, ◌≢◌, Bool, false, ◌&&◌, some, List, [], ◌∷◌, ok, arith, ◌==◌, inl, inr,
  select_one, delete_where, select_one_sound, Option-cases, Result-cases, Bool-cases, str_eq,
}
use ctfnight.Model.{Db, User, SessionToken, is_participant}
use ctfnight.Security.{hash_session}
use ctfnight.Access.{Request, current_user, require_admin, user_by_id, session_by_token}
use ctfnight.Journal.{add_audit, add_outbox}
use ctfnight.App.{Session, ◌>>=◌}
use ctfnight.Admin.UserStatus.{
  UserStatusUpdateRequest, AdminUserView, update_user_status, participant_by_id, revoke_sessions,
  set_status, store_status,
}

select_one-delete_where :
    (p q : SessionToken → Bool) (xs : List SessionToken) (y : SessionToken)
    → select_one p (delete_where q xs) ≡ some y
    → q y ≡ false
unfolding select_one delete_where
select_one-delete_where p q [] y h = cc
select_one-delete_where p q (x ∷ xs) y h = elim (Bool-cases (q x)) [
  | inl e ↦ select_one-delete_where p q xs y (rw e at h)
  | inr e ↦ elim (Bool-cases (p x)) [
    | inl f ↦ ground arith
    | inr f ↦ ground (arith, select_one-delete_where p q xs y)
  ]
]

-- The caller of a request is the owner of a stored session.
pub current_user_session :
    (r : Request) (d : Db) (u : User)
    → current_user r d ≡ ok u
    → (token : String) × (s : SessionToken) × (session_by_token r token d ≡ some s)
      × (s.user_id ≡ u.id)
unfolding current_user
current_user_session r d u h = elim (Option-cases r.session_cookie) [
  | inl e ↦ ground arith
  | inr (token, e) ↦ elim (Option-cases (session_by_token r token d)) [
    | inl f ↦ ground arith
    | inr (s, f) ↦ elim (Option-cases (user_by_id s.user_id d)) [
      | inl g ↦ ground arith
      | inr (v, g) ↦ (
        token,
        s,
        f,
        ground (arith, select_one_sound (λ (x : User). x.id == s.user_id) d.users v),
      )
    ]
  ]
]

pub session_gone :
    (r : Request) (token : String) (d : Db) (q : SessionToken → Bool) (xs : List SessionToken)
    (stored : SessionToken)
    → session_by_token r token d ≡ some stored
    → d.sessions ≡ delete_where q xs
    → q stored ≡ false
unfolding session_by_token
session_gone r token d q xs stored found same =
    select_one-delete_where
      (λ x. str_eq x.token_hash (hash_session r.crypto r.settings.secret_key token)) q xs stored
      (rw same at found)

participant_by_id_sound :
    (user_id : ℕ) (d : Db) (user : User) → participant_by_id user_id d ≡ ok user → user.id ≡ user_id
unfolding participant_by_id
participant_by_id_sound user_id d user h =
    let p = λ (u : User). u.id == user_id && is_participant u.role in
    elim (Option-cases (select_one p d.users)) [
      | inl e ↦ ground arith
      | inr (v, e) ↦ ground (arith, select_one_sound p d.users v)
    ]

sessions_after :
    (request : Request) (others : Db → Db) (user_id : ℕ) (payload : UserStatusUpdateRequest)
    (s : Session) (reply : AdminUserView)
    → payload.active ≡ false
    → (update_user_status request others user_id payload s).0 ≡ ok reply
    → (update_user_status request others user_id payload s).1.committed.sessions
      ≡ delete_where (λ (x : SessionToken). x.user_id == user_id) (others s.committed).sessions
unfolding update_user_status ◌>>=◌ set_status revoke_sessions store_status add_audit add_outbox
sessions_after request others user_id payload s reply off h =
    elim (Result-cases (require_admin request s.db)) [
      | inr (x, e) ↦ ground arith
      | inl (admin, e) ↦ elim (Result-cases (participant_by_id user_id (others s.committed))) [
        | inr (x, f) ↦ ground arith
        | inl (user, f) ↦
            ground (arith, participant_by_id_sound user_id (others s.committed) user f)
      ]
    ]

-- A successful suspension, of an active account or of one suspended before, leaves no session with
-- which any later request would be taken for the account.
pub suspension_revokes :
    (request : Request) (others : Db → Db) (user_id : ℕ) (payload : UserStatusUpdateRequest)
    (s : Session) (reply : AdminUserView)
    → payload.active ≡ false
    → (update_user_status request others user_id payload s).0 ≡ ok reply
    → (r : Request) (u : User)
    → current_user r (update_user_status request others user_id payload s).1.committed ≡ ok u
    → u.id ≢ user_id
suspension_revokes request others user_id payload s reply off h r u c =
    let after = (update_user_status request others user_id payload s).1.committed in
    let own : SessionToken → Bool = λ x. x.user_id == user_id in
    let (token, stored, found, same) = current_user_session r after u c in
    let gone =
      session_gone r token after own (others s.committed).sessions stored found
        (sessions_after request others user_id payload s reply off h) in
    ground (arith, gone, same)
