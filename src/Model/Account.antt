-- ===== src/Model/Account.antt =====
-- Users, sessions, teams and memberships (backend/src/alpha/models.py), with their enumerations.
-- A UUID is a number, a timestamp is a number of microseconds in UTC.
use ctfnight.Base.{ℕ, String, Bool, true, false}

pub data UserRole : Type 0 where
  participant admin : UserRole

pub data MembershipRole : Type 0 where
  owner member : MembershipRole

abbrev pub is_participant : UserRole → Bool
is_participant participant = true
is_participant admin = false

abbrev pub is_admin : UserRole → Bool
is_admin participant = false
is_admin admin = true

abbrev pub is_owner : MembershipRole → Bool
is_owner owner = true
is_owner member = false

pub record User : Type 0 where
  pub id : ℕ
  pub email : String
  pub username : String
  pub password_hash : String
  pub role : UserRole
  pub active : Bool
  pub password_change_required : Bool
  pub credential_version : ℕ
  pub created_at : ℕ

pub record SessionToken : Type 0 where
  pub id : ℕ
  pub token_hash : String
  pub user_id : ℕ
  pub credential_version : ℕ
  pub expires_at : ℕ
  pub last_seen_at : ℕ
  pub created_at : ℕ

pub record Team : Type 0 where
  pub id : ℕ
  pub name : String
  pub invite_hash : String
  pub creator_id : ℕ
  pub created_at : ℕ

pub record Membership : Type 0 where
  pub id : ℕ
  pub user_id : ℕ
  pub team_id : ℕ
  pub role : MembershipRole
  pub joined_at : ℕ
