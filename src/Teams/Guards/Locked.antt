-- ===== src/Teams/Guards/Locked.antt =====
-- What the lock chain of the member operations establishes.
use ctfnight.Base.{ℕ, ◌≡◌, ◌==◌, some, ok, arith, select_one_sound, ap, ◌∙◌}
use ctfnight.Model.{Db, User, Team, Membership, owner, member}
use ctfnight.Access.{user_by_id, membership_for}
use ctfnight.Teams.Guards.{
  OwnerAndTarget, check_target, check_owner, check_limit_and_owner, lock_owner_and_target,
  locked_team, locked_membership, lock_actor,
}

pub user_by_id_sound : (id : ℕ) (d : Db) (u : User) → user_by_id id d ≡ some u → u.id ≡ id
user_by_id_sound id d u e = ground (arith, select_one_sound (λ (x : User). x.id == id) d.users u e)

locked_team_sound : (id : ℕ) (d : Db) (t : Team) → locked_team id d ≡ ok t → t.id ≡ id
unfolding locked_team
locked_team_sound id d t e = ground (arith, select_one_sound (λ (x : Team). x.id == id) d.teams t)

-- The rows of the owner and of the target, and how they relate.
pub record Locked (d : Db) (l : OwnerAndTarget) : Type 0 where
  pub owner_row : Membership
  pub target_row : Membership
  pub owner_found : membership_for l.actor.id d ≡ some owner_row
  pub target_found : membership_for l.target.id d ≡ some target_row
  pub owns : owner_row.role ≡ owner
  pub serves : target_row.role ≡ member
  pub apart : ¬ (l.actor.id ≡ l.target.id)
  pub owner_team : owner_row.team_id ≡ l.team_id
  pub target_team : target_row.team_id ≡ l.team_id

target_facts :
    (actor : User) (target_id team_id : ℕ) (d : Db) (l : OwnerAndTarget)
    → check_target actor target_id team_id d ≡ ok l
    → (l.actor ≡ actor) × (l.team_id ≡ team_id) × (user_by_id target_id d ≡ some l.target)
unfolding check_target
target_facts actor target_id team_id d l h = ground arith

target_membership :
    (actor : User) (target_id team_id : ℕ) (d : Db) (l : OwnerAndTarget)
    → check_target actor target_id team_id d ≡ ok l
    → (b : Membership) × (membership_for target_id d ≡ some b)
      × (b.role ≡ member)
      × (b.team_id ≡ team_id)
unfolding check_target
target_membership actor target_id team_id d l h = ground arith

owner_facts :
    (actor : User) (mine : Membership) (target_id : ℕ) (d : Db) (l : OwnerAndTarget)
    → check_owner actor mine target_id d ≡ ok l
    → (t : Team) × (locked_team mine.team_id d ≡ ok t)
      × (mine.role ≡ owner)
      × (¬ (actor.id ≡ target_id))
      × (check_target actor target_id t.id d ≡ ok l)
unfolding check_owner
owner_facts actor mine target_id d l h = ground arith

chain_facts :
    (actor_id target_id event_id version : ℕ) (d : Db) (l : OwnerAndTarget)
    → lock_owner_and_target actor_id target_id event_id version d ≡ ok l
    → (actor : User) × (mine : Membership) × (lock_actor actor_id version d ≡ ok actor)
      × (membership_for actor.id d ≡ some mine)
      × (check_owner actor mine target_id d ≡ ok l)
unfolding lock_owner_and_target check_limit_and_owner locked_membership
chain_facts actor_id target_id event_id version d l h = ground arith

-- A lock chain that succeeds has found the owner of a team and another of its members.
pub lock_owner_and_target-Locked :
    (actor_id target_id event_id version : ℕ) (d : Db) (l : OwnerAndTarget)
    → lock_owner_and_target actor_id target_id event_id version d ≡ ok l
    → Locked d l
lock_owner_and_target-Locked actor_id target_id event_id version d l h =
    let (actor, mine, _, em, eo) = chain_facts actor_id target_id event_id version d l h in
    let (t, et, rm, ne, ec) = owner_facts actor mine target_id d l eo in
    let (ea, eteam, eu) = target_facts actor target_id t.id d l ec in
    let (b, eb, rb, tb) = target_membership actor target_id t.id d l ec in
    let id = user_by_id_sound target_id d l.target eu in
    let team = locked_team_sound mine.team_id d t et in
    record {
      owner_row = mine;
      target_row = b;
      owner_found = ap (λ (u : User). membership_for u.id d) ea ∙ em;
      target_found = ap (λ i. membership_for i d) id ∙ eb;
      owns = rm;
      serves = rb;
      apart = ground (arith, ap (λ (u : User). u.id) ea);
      owner_team = ground arith;
      target_team = ground arith;
    }
