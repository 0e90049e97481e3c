-- ===== src/Teams/View.antt =====
-- `_team_dict` (backend/src/alpha/routes_teams.py): the members sorted owner first, then by the
-- time of joining and the id.
use ctfnight.Base.{
  ℕ, String, Bool, true, false, ◌&&◌, ◌||◌, Option, none, some, List, [], ◌∷◌, ◌==◌, ltb, leb,
  if◌then◌else◌, select_all,
}
use ctfnight.Model.{Db, Team, Membership, MembershipRole, Event, is_owner}
use ctfnight.Access.{user_by_id, team_display_name}

pub record MemberView : Type 0 where
  pub id : ℕ
  pub username : String
  pub role : MembershipRole

pub record TeamView : Type 0 where
  pub id : ℕ
  pub name : String
  pub role : MembershipRole
  pub members : List MemberView

-- The order of `member_sort_key`: owners first, then `joined_at`, then the id.
unfoldable pub member_le : Membership → Membership → Bool
member_le a b =
    if is_owner a.role
    then if is_owner b.role
      then ltb a.joined_at b.joined_at || (a.joined_at == b.joined_at && leb a.user_id b.user_id)
      else true
    else if is_owner b.role
    then false
    else ltb a.joined_at b.joined_at || (a.joined_at == b.joined_at && leb a.user_id b.user_id)

insert_member : Membership → List Membership → List Membership
insert_member m [] = m ∷ []
insert_member m (x ∷ rest) =
    let later = insert_member m rest in if member_le m x then m ∷ x ∷ rest else x ∷ later

unfoldable pub sort_members : List Membership → List Membership
unfolding insert_member member_le
sort_members [] = []
sort_members (m ∷ rest) = insert_member m (sort_members rest)

-- The foreign key of a membership always finds its user.
member_views : List Membership → Db → List MemberView
member_views [] d = []
member_views (m ∷ rest) d =
    let later = member_views rest d in
    elim (user_by_id m.user_id d) [
      | none ↦ later
      | some user ↦ record { id = user.id; username = user.username; role = m.role } ∷ later
    ]

unfoldable pub team_dict : Option Event → Team → MembershipRole → Db → TeamView
unfolding sort_members member_views
team_dict event team role d = record {
  id = team.id;
  name = team_display_name event team d;
  role = role;
  members = member_views (sort_members (select_all (λ m. m.team_id == team.id) d.memberships)) d;
}
