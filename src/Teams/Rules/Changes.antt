-- ===== src/Teams/Rules/Changes.antt =====
-- A change of owner, a departure and the end of a team keep the rules of the team tables.
use ctfnight.Base.{
  ℕ, ◌+◌, ◌≤◌, ◌≡◌, refl, Bool, ◌&&◌, some, ◌==◌, arith, to_num, select_one, count_where_congr,
  count_where_never, count_where-delete_where, count_where-delete_where_le,
  count_where-update_where_one, count_where-update_where_same, select_one-update_where, ◌∙◌,
  count_where-delete_where_one,
}
use ctfnight.Model.{Db, Membership, MembershipRole, owner, member, is_owner}
use native.Mathlib.Decide.{ℕ_discrete}
use ctfnight.Access.{membership_for}
use ctfnight.Teams.{
  member_count, owner_count, memberships_of, team_rows, set_role, delete_membership, delete_team,
}
use ctfnight.Teams.Rules.{IsConsistent}

abbrev of_user : ℕ → Membership → Bool
of_user u m = m.user_id == u

abbrev of_team : ℕ → Membership → Bool
of_team t m = m.team_id == t

abbrev owner_of : ℕ → Membership → Bool
owner_of t m = m.team_id == t && is_owner m.role

abbrev with_role : MembershipRole → Membership → Membership
with_role r m = record m { role = r }

module _ (user : ℕ) (role : MembershipRole) (m : Membership) (d : Db) where
  -- What a change of role does to the counts.
  reassigned :
      (one : memberships_of user d ≤ 1)
      → select_one (of_user user) d.memberships ≡ some m
      → (t u : ℕ)
      → (owner_count t (set_role user role d) + to_num (owner_of t m)
          ≡ owner_count t d + to_num (owner_of t (with_role role m)))
        × (member_count t (set_role user role d) ≡ member_count t d)
        × (memberships_of u (set_role user role d) ≡ memberships_of u d)
        × (team_rows t (set_role user role d) ≡ team_rows t d)
  unfolding owner_count member_count memberships_of team_rows set_role
  reassigned one e t u = (
    count_where-update_where_one (owner_of t) (of_user user) (with_role role) d.memberships m e one,
    count_where-update_where_same (of_team t) (of_user user) (with_role role) d.memberships
        (λ x h. refl),
    count_where-update_where_same (of_user u) (of_user user) (with_role role) d.memberships
        (λ x h. refl),
    refl,
  )

module _ (actor target : ℕ) (a b : Membership) (d : Db) where
  -- The owner and a member of one team change places.
  pub transferred-IsConsistent :
      IsConsistent d
      → membership_for actor d ≡ some a
      → membership_for target d ≡ some b
      → ¬ (actor ≡ target)
      → a.role ≡ owner
      → b.role ≡ member
      → b.team_id ≡ a.team_id
      → IsConsistent (set_role target owner (set_role actor member d))
  unfolding membership_for
  transferred-IsConsistent c ea eb ne ra rb same =
      let d₁ : Db = set_role actor member d in
      let one₁ = λ (t u : ℕ). reassigned actor member a d (c.one_team actor) ea t u in
      let eb₁ : select_one (of_user target) d₁.memberships ≡ some b =
        unfold set_role in
        (select_one-update_where (of_user target) (of_user actor) (with_role member) d.memberships
          (λ x h. ground arith))
        ∙ eb in
      let one₂ = λ (t u : ℕ).
        reassigned target owner b d₁ (ground (arith, one₁ 0 target, c.one_team target)) eb₁ t u in
      record {
        one_team = λ u. ground (arith, one₁ 0 u, one₂ 0 u, c.one_team u);
        one_owner = λ t. ground (arith, one₁ t 0, one₂ t 0, c.one_owner t);
        one_row = λ t. ground (arith, one₁ t 0, one₂ t 0, c.one_row t);
        placed = λ t z. ground (arith, one₁ t 0, one₂ t 0, c.placed t);
        fits = λ t. ground (arith, one₁ t 0, one₂ t 0, c.fits t);
      }

module _ (user : ℕ) (m : Membership) (d : Db) where
  withdrawn :
      (one : memberships_of user d ≤ 1)
      → select_one (of_user user) d.memberships ≡ some m
      → (t u : ℕ)
      → (owner_count t (delete_membership user d) + to_num (owner_of t m) ≡ owner_count t d)
        × (member_count t (delete_membership user d) + to_num (of_team t m) ≡ member_count t d)
        × (memberships_of u (delete_membership user d) + to_num (of_user u m) ≡ memberships_of u d)
        × (team_rows t (delete_membership user d) ≡ team_rows t d)
  unfolding owner_count member_count memberships_of team_rows delete_membership
  withdrawn one e t u = (
    count_where-delete_where_one (owner_of t) (of_user user) d.memberships m e one,
    count_where-delete_where_one (of_team t) (of_user user) d.memberships m e one,
    count_where-delete_where_one (of_user u) (of_user user) d.memberships m e one,
    refl,
  )

  -- A member, not the owner, goes.
  pub withdrawn-IsConsistent :
      IsConsistent d
      → membership_for user d ≡ some m
      → m.role ≡ member
      → IsConsistent (delete_membership user d)
  unfolding membership_for
  withdrawn-IsConsistent c e role =
      let gone = λ (t u : ℕ). withdrawn (c.one_team user) e t u in
      record {
        one_team = λ u. ground (arith, gone 0 u, c.one_team u);
        one_owner = λ t. ground (arith, gone t 0, c.one_owner t);
        one_row = λ t. ground (arith, gone t 0, c.one_row t);
        placed = λ t z. ground (arith, gone t 0, c.placed t);
        fits = λ t. ground (arith, gone t 0, c.fits t);
      }

module _ (team : ℕ) (d : Db) where
  dissolved_self :
      (team_rows team (delete_team team d) ≡ 0)
      × (member_count team (delete_team team d) ≡ 0)
      × (owner_count team (delete_team team d) ≡ 0)
  unfolding team_rows member_count owner_count delete_team
  dissolved_self = ground (
    arith,
    count_where-delete_where (λ x. x.id == team) (λ x. x.id == team) d.teams,
    count_where-delete_where (of_team team) (of_team team) d.memberships,
    count_where-delete_where (owner_of team) (of_team team) d.memberships,
    count_where_congr (λ x. x.id == team && x.id == team) (λ x. x.id == team) d.teams
        (λ x. ground arith),
    count_where_congr (λ m. of_team team m && of_team team m) (of_team team) d.memberships
        (λ x. ground arith),
    count_where_congr (λ m. owner_of team m && of_team team m) (owner_of team) d.memberships
        (λ x. ground arith),
  )

  dissolved_ne :
      (t : ℕ)
      → ¬ (t ≡ team)
      → (team_rows t (delete_team team d) ≡ team_rows t d)
        × (member_count t (delete_team team d) ≡ member_count t d)
        × (owner_count t (delete_team team d) ≡ owner_count t d)
  unfolding team_rows member_count owner_count delete_team
  dissolved_ne t ne = ground (
    arith,
    count_where-delete_where (λ x. x.id == t) (λ x. x.id == team) d.teams,
    count_where-delete_where (of_team t) (of_team team) d.memberships,
    count_where-delete_where (owner_of t) (of_team team) d.memberships,
    count_where_never (λ x. x.id == t && x.id == team) d.teams (λ x. ground arith),
    count_where_never (λ m. of_team t m && of_team team m) d.memberships (λ x. ground arith),
    count_where_never (λ m. owner_of t m && of_team team m) d.memberships (λ x. ground arith),
  )

  dissolved_user : (u : ℕ) → memberships_of u (delete_team team d) ≤ memberships_of u d
  unfolding memberships_of delete_team
  dissolved_user u = count_where-delete_where_le (of_user u) (of_team team) d.memberships

module _ (user : ℕ) (m : Membership) (d : Db) where
  -- A membership goes together with its team.
  pub dissolved-IsConsistent :
      IsConsistent d
      → membership_for user d ≡ some m
      → IsConsistent (delete_team m.team_id (delete_membership user d))
  unfolding membership_for
  dissolved-IsConsistent c e =
      let d₁ : Db = delete_membership user d in
      let gone = λ (t u : ℕ). withdrawn user m d (c.one_team user) e t u in
      let self = dissolved_self m.team_id d₁ in
      let split = λ (t : ℕ). ℕ_discrete t m.team_id in
      record {
        one_team = λ u. ground (arith, gone 0 u, dissolved_user m.team_id d₁ u, c.one_team u);
        one_owner = λ t. elim (split t) [
          | yes h ↦ rw h (ground (arith, self))
          | no h ↦ ground (arith, gone t 0, dissolved_ne m.team_id d₁ t h, c.one_owner t)
        ];
        one_row = λ t. elim (split t) [
          | yes h ↦ rw h (ground (arith, self))
          | no h ↦ ground (arith, gone t 0, dissolved_ne m.team_id d₁ t h, c.one_row t)
        ];
        placed = λ t z. elim (split t) [
          | yes h ↦ rw h (ground (arith, self))
          | no h ↦ ground (arith, gone t 0, dissolved_ne m.team_id d₁ t h, c.placed t)
        ];
        fits = λ t. elim (split t) [
          | yes h ↦ rw h (ground (arith, self))
          | no h ↦ ground (arith, gone t 0, dissolved_ne m.team_id d₁ t h, c.fits t)
        ];
      }
