-- ===== src/Teams/Rules/Frame.antt =====
-- What leaves the rules of the team tables alone: journal rows and new invite codes.
use ctfnight.Base.{ℕ, String, ◌≡◌, refl, Option, ok, ◌==◌, arith, count_where-update_where_same}
use ctfnight.Model.{Db, Team, Action, Topic, Target, Metadata}
use ctfnight.Journal.{add_audit, add_outbox}
use ctfnight.Teams.{member_count, owner_count, memberships_of, team_rows, set_invite_hash}
use ctfnight.Teams.Rules.{IsConsistent}

-- The audit and outbox rows are outside the rules.
pub journal-IsConsistent :
    (now now' : ℕ) (actor : Option ℕ) (action : Action) (target target' : Target) (id : Option ℕ)
    (metadata payload : Metadata) (topic : Topic) (id' : ℕ) (d : Db)
    → IsConsistent d
    → IsConsistent (
        add_outbox now' topic target' id' payload (add_audit now actor action target id metadata d))
unfolding add_outbox add_audit member_count owner_count memberships_of team_rows
journal-IsConsistent now now' actor action target target' id metadata payload topic id' d c =
    record {
      one_team = c.one_team;
      one_owner = c.one_owner;
      one_row = c.one_row;
      placed = c.placed;
      fits = c.fits;
    }

pub audit-IsConsistent :
    (now : ℕ) (actor : Option ℕ) (action : Action) (target : Target) (id : Option ℕ)
    (metadata : Metadata) (d : Db)
    → IsConsistent d
    → IsConsistent (add_audit now actor action target id metadata d)
unfolding add_audit member_count owner_count memberships_of team_rows
audit-IsConsistent now actor action target id metadata d c = record {
  one_team = c.one_team;
  one_owner = c.one_owner;
  one_row = c.one_row;
  placed = c.placed;
  fits = c.fits;
}

rehashed :
    (team : ℕ) (hash : String) (d d' : Db) (t u : ℕ)
    → set_invite_hash team hash d ≡ ok d'
    → (team_rows t d' ≡ team_rows t d)
      × (member_count t d' ≡ member_count t d)
      × (owner_count t d' ≡ owner_count t d)
      × (memberships_of u d' ≡ memberships_of u d)
unfolding set_invite_hash member_count owner_count memberships_of team_rows
rehashed team hash d d' t u h = ground (
  arith,
  count_where-update_where_same (λ (x : Team). x.id == t) (λ x. x.id == team)
      (λ x. record x { invite_hash = hash }) d.teams (λ x h. refl),
)

-- A new invite code changes no membership.
pub memberships-set_invite_hash :
    (team : ℕ) (hash : String) (d d' : Db)
    → set_invite_hash team hash d ≡ ok d'
    → d'.memberships ≡ d.memberships
unfolding set_invite_hash
memberships-set_invite_hash team hash d d' h = ground arith

pub set_invite_hash-IsConsistent :
    (team : ℕ) (hash : String) (d d' : Db)
    → set_invite_hash team hash d ≡ ok d'
    → IsConsistent d
    → IsConsistent d'
set_invite_hash-IsConsistent team hash d d' h c = record {
  one_team = λ u. ground (arith, rehashed team hash d d' 0 u h, c.one_team u);
  one_owner = λ t. ground (arith, rehashed team hash d d' t 0 h, c.one_owner t);
  one_row = λ t. ground (arith, rehashed team hash d d' t 0 h, c.one_row t);
  placed = λ t z. ground (arith, rehashed team hash d d' t 0 h, c.placed t);
  fits = λ t. ground (arith, rehashed team hash d d' t 0 h, c.fits t);
}
