-- ===== src/Teams/Rules.antt =====
-- The rules that every state of the team tables obeys, and that a new team and a new member keep.
pub mod Changes
pub mod Frame
use ctfnight.Base.{
  ℕ, ◌+◌, ◌≤◌, ◌<◌, String, ◌≡◌, refl, Bool, true, false, ◌&&◌, not, Option, none, some, Result, ok,
  err, ◌==◌, arith, to_num, count_where, select_one, count_where-insert_row, count_where-none,
  count_where_found, count_where_congr, count_where_never, count_where-delete_where,
  count_where-delete_where_le, count_where-update_where_one, count_where-update_where_same,
  select_one-update_where, ◌∙◌, count_where-delete_where_one, is_some,
}
use ctfnight.Model.{
  Db, Team, Membership, MembershipRole, owner, member, is_owner, Action, Topic, Target, Metadata,
}
use ctfnight.Journal.{add_audit, add_outbox}
use native.Mathlib.Decide.{ℕ_discrete}
use ctfnight.Access.{membership_for}
use ctfnight.Teams.{
  insert_team, insert_membership, member_count, owner_count, memberships_of, team_rows, set_role,
  delete_membership, delete_team, set_invite_hash, max_members_per_team,
}

-- Nobody is on two teams; every team has one owner and no membership lacks its team; team ids are
-- not repeated; no team passes its capacity.
pub record IsConsistent (d : Db) : Type 0 where
  pub one_team : (u : ℕ) → memberships_of u d ≤ 1
  pub one_owner : (t : ℕ) → owner_count t d ≡ team_rows t d
  pub one_row : (t : ℕ) → team_rows t d ≤ 1
  pub placed : (t : ℕ) → team_rows t d ≡ 0 → member_count t d ≡ 0
  pub fits : (t : ℕ) → member_count t d ≤ max_members_per_team

module _ (lower : String → String) (team : Team) (row : Membership) (d d₁ d₂ : Db) where
  inserted :
      insert_team lower team d ≡ ok d₁
      → (t u : ℕ)
      → (team_rows t d₁ ≡ team_rows t d + to_num (team.id == t))
        × (team_rows team.id d ≡ 0)
        × (member_count t d₁ ≡ member_count t d)
        × (owner_count t d₁ ≡ owner_count t d)
        × (memberships_of u d₁ ≡ memberships_of u d)
  unfolding insert_team team_rows member_count owner_count memberships_of
  inserted h t u = ground (
    arith,
    count_where-insert_row (λ x. x.id == t) team d.teams,
    count_where-none (λ x. x.id == team.id) d.teams,
  )

  joined :
      insert_membership row d₁ ≡ ok d₂
      → (t u : ℕ)
      → (member_count t d₂ ≡ member_count t d₁ + to_num (row.team_id == t))
        × (owner_count t d₂ ≡ owner_count t d₁ + to_num (row.team_id == t && is_owner row.role))
        × (memberships_of u d₂ ≡ memberships_of u d₁ + to_num (row.user_id == u))
        × (memberships_of row.user_id d₁ ≡ 0)
        × (1 ≤ team_rows row.team_id d₁)
        × (team_rows t d₂ ≡ team_rows t d₁)
  unfolding insert_membership member_count owner_count memberships_of team_rows
  joined h t u = ground (
    arith,
    count_where-insert_row (λ m. m.team_id == t) row d₁.memberships,
    count_where-insert_row (λ m. m.team_id == t && is_owner m.role) row d₁.memberships,
    count_where-insert_row (λ m. m.user_id == u) row d₁.memberships,
    count_where-none (λ m. m.user_id == row.user_id) d₁.memberships,
    count_where_found (λ x. x.id == row.team_id) d₁.teams,
  )

  -- A new team with its creator as the owner.
  pub founded-IsConsistent :
      IsConsistent d
      → insert_team lower team d ≡ ok d₁
      → insert_membership row d₁ ≡ ok d₂
      → row.team_id ≡ team.id
      → row.role ≡ owner
      → IsConsistent d₂
  founded-IsConsistent c h k same role = record {
    one_team =
        λ u. ground (arith, inserted h 0 u, inserted h 0 row.user_id, joined k 0 u, c.one_team u);
    one_owner = λ t. ground (arith, inserted h t 0, joined k t 0, c.one_owner t);
    one_row = λ t. ground (arith, inserted h t 0, joined k t 0, c.one_row t);
    placed = λ t z. ground (arith, inserted h t 0, joined k t 0, c.placed t);
    fits = λ t. ground (arith, inserted h t 0, joined k t 0, c.fits t, c.placed t);
  }

  -- A new member of a team with room.
  pub recruited-IsConsistent :
      IsConsistent d₁
      → insert_membership row d₁ ≡ ok d₂
      → member_count row.team_id d₁ < max_members_per_team
      → row.role ≡ member
      → IsConsistent d₂
  recruited-IsConsistent c k room role = record {
    one_team = λ u. ground (arith, joined k 0 u, c.one_team u);
    one_owner = λ t. ground (arith, joined k t 0, c.one_owner t);
    one_row = λ t. ground (arith, joined k t 0, c.one_row t);
    placed = λ t z. ground (arith, joined k t 0, c.placed t);
    fits = λ t. ground (arith, joined k t 0, c.fits t);
  }
