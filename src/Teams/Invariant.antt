-- ===== src/Teams/Invariant.antt =====
-- Every team route keeps the rules of the team tables.
use ctfnight.Base.{ℕ, String, ◌≡◌, refl, false, some, ok, arith, leb, ◌∙◌, ◌<◌}
use ctfnight.Model.{Db, owner, member, Membership, MembershipRole}
use ctfnight.Access.{Request, membership_for}
use ctfnight.App.{Session}
use ctfnight.App.Keeps.{
  Kept, Kept-query, Kept-gets, Kept-any, Kept-catch, Kept-guard, Kept-write, Kept-modify, Kept-wait,
  Kept-commit, Kept-last, Kept-pure, Kept-tiers,
}
use ctfnight.Teams.{
  create_team, join_team, rotate_invite, transfer_owner, remove_member, leave_team, drop_member,
  locked_membership, Fresh, check_team_mutation_rate, member_count, max_members_per_team,
}
use ctfnight.Teams.Rules.{IsConsistent, founded-IsConsistent, recruited-IsConsistent}
use ctfnight.Teams.Rules.Changes.{
  transferred-IsConsistent, withdrawn-IsConsistent, dissolved-IsConsistent,
}
use ctfnight.Teams.Rules.Frame.{
  journal-IsConsistent, audit-IsConsistent, set_invite_hash-IsConsistent,
  memberships-set_invite_hash,
}
use ctfnight.Teams.Guards.Locked.{lock_owner_and_target-Locked}

-- The other sessions keep the rules too.
abbrev pub Respects : (Db → Db) → Type 0
Respects others = (d : Db) → IsConsistent d → IsConsistent (others d)

rate-Kept :
    (request : Request) (s : Session)
    → IsConsistent s.committed
    → Kept IsConsistent (check_team_mutation_rate request) s
unfolding check_team_mutation_rate
rate-Kept request s c = Kept-tiers IsConsistent _ _ _ s c

pub create_team-Kept :
    (request : Request) (others racing : Db → Db) (fresh : Fresh) (name : String) (s : Session)
    → Respects others
    → Respects racing
    → IsConsistent s.committed
    → Kept IsConsistent (create_team request others racing fresh name) s
unfolding create_team
create_team-Kept request others racing fresh name s ho hr c =
    let P = IsConsistent in
    Kept-any P s _ _ (rate-Kept request s c) λ _ s₁ c₁. Kept-query P s₁ _ _ c₁ λ user _.
      Kept-wait P s₁ others _ (
        let c₂ = ho s₁.committed c₁ in
        Kept-query P _ _ _ c₂ λ event _. Kept-query P _ _ _ c₂ λ _ _. Kept-gets P _ _ _ (
          Kept-guard P _ _ _ _ c₂ λ _. Kept-gets P _ _ _ (
            Kept-guard P _ _ _ _ c₂ λ _. Kept-wait P _ racing _ (
              let c₃ = hr _ c₂ in
              Kept-write P _ _ _ c₃ λ d₁ added.
                Kept-any P _ _ _
                  (Kept-catch P _ _ _ (
                    Kept-write P _ _ _ c₃ λ d₂ joined. Kept-modify P _ _ _ (
                      Kept-modify P _ _ _ (
                        Kept-last P _ (
                          journal-IsConsistent _ _ _ _ _ _ _ _ _ _ _ _
                            (founded-IsConsistent _ _ _ _ _ _ c₃ added joined refl refl))))))
                  λ _ s₄ c₄. Kept-gets P _ _ _ (Kept-pure P _ _ c₄)))))

membership_for-memberships :
    (user : ℕ) (d d' : Db)
    → d.memberships ≡ d'.memberships
    → membership_for user d ≡ membership_for user d'
unfolding membership_for
membership_for-memberships user d d' e = rw e

pub join_team-Kept :
    (request : Request) (others : Db → Db) (fresh : Fresh) (invite_code : String) (s : Session)
    → Respects others
    → IsConsistent s.committed
    → Kept IsConsistent (join_team request others fresh invite_code) s
unfolding join_team
join_team-Kept request others fresh invite_code s ho c =
    let P = IsConsistent in
    Kept-any P s _ _ (rate-Kept request s c) λ _ s₁ c₁. Kept-query P s₁ _ _ c₁ λ user _.
      Kept-wait P s₁ others _ (
        let c₂ = ho s₁.committed c₁ in
        Kept-query P _ _ _ c₂ λ event _. Kept-query P _ _ _ c₂ λ _ _. Kept-gets P _ _ _ (
          Kept-guard P _ _ _ _ c₂ λ _. Kept-query P _ _ _ c₂ λ team _. Kept-gets P _ _ _ (
            Kept-guard P _ _ _ _ c₂ λ room.
              Kept-any P _ _ _
                (Kept-catch P _ _ _ (
                  Kept-write P _ _ _ c₂ λ d₂ joined. Kept-modify P _ _ _ (
                    Kept-modify P _ _ _ (
                      Kept-last P _ (
                        journal-IsConsistent _ _ _ _ _ _ _ _ _ _ _ _ (
                          recruited-IsConsistent request.crypto.lower team _ d₂ _ d₂ c₂ joined
                            (has_room (member_count team.id (others s₁.committed)) room) refl))))))
                λ _ s₄ c₄. Kept-query P _ _ _ c₄ λ _ _. Kept-pure P _ _ c₄)))
  where
    has_room : (n : ℕ) → leb max_members_per_team n ≡ false → n < max_members_per_team
    has_room n h = ground arith

pub rotate_invite-Kept :
    (request : Request) (others : Db → Db) (fresh : Fresh) (s : Session)
    → Respects others
    → IsConsistent s.committed
    → Kept IsConsistent (rotate_invite request others fresh) s
unfolding rotate_invite
rotate_invite-Kept request others fresh s ho c =
    let P = IsConsistent in
    Kept-any P s _ _ (rate-Kept request s c) λ _ s₁ c₁. Kept-query P s₁ _ _ c₁ λ user _.
      Kept-wait P s₁ others _ (
        let c₂ = ho s₁.committed c₁ in
        Kept-query P _ _ _ c₂ λ event _. Kept-query P _ _ _ c₂ λ _ _.
          Kept-query P _ _ _ c₂ λ mine _. Kept-query P _ _ _ c₂ λ team _.
            Kept-guard P _ _ _ _ c₂ λ _. Kept-write P _ _ _ c₂ λ d₁ rehashed.
              let c₃ =
                audit-IsConsistent _ _ _ _ _ _ _
                  (set_invite_hash-IsConsistent _ _ _ _ rehashed c₂) in
              Kept-modify P _ _ _ (Kept-commit P _ _ (Kept-pure P _ _ c₃)))

pub transfer_owner-Kept :
    (request : Request) (others : Db → Db) (target_id : ℕ) (s : Session)
    → Respects others
    → IsConsistent s.committed
    → Kept IsConsistent (transfer_owner request others target_id) s
unfolding transfer_owner
transfer_owner-Kept request others target_id s ho c =
    let P = IsConsistent in
    Kept-any P s _ _ (rate-Kept request s c) λ _ s₁ c₁. Kept-query P s₁ _ _ c₁ λ user _.
      Kept-wait P s₁ others _ (
        let c₂ = ho s₁.committed c₁ in
        Kept-query P _ _ _ c₂ λ event _. Kept-query P _ _ _ c₂ λ l found.
          let k = lock_owner_and_target-Locked _ _ _ _ _ _ found in
          Kept-guard P _ _ _ _ c₂ λ _.
            let c₃ =
              transferred-IsConsistent _ _ _ _ _ c₂ k.owner_found k.target_found k.apart k.owns
                k.serves (ground (arith, k.owner_team, k.target_team)) in
            let c₄ = journal-IsConsistent _ _ _ _ _ _ _ _ _ _ _ _ c₃ in
            Kept-modify P _ _ _ (
              Kept-modify P _ _ _ (
                Kept-modify P _ _ _ (
                  Kept-modify P _ _ _
                    (Kept-commit P _ _ (Kept-query P _ _ _ c₄ λ _ _. Kept-pure P _ _ c₄))))))

pub remove_member-Kept :
    (request : Request) (others : Db → Db) (fresh : Fresh) (target_id : ℕ) (s : Session)
    → Respects others
    → IsConsistent s.committed
    → Kept IsConsistent (remove_member request others fresh target_id) s
unfolding remove_member
remove_member-Kept request others fresh target_id s ho c =
    let P = IsConsistent in
    Kept-any P s _ _ (rate-Kept request s c) λ _ s₁ c₁. Kept-query P s₁ _ _ c₁ λ user _.
      Kept-wait P s₁ others _ (
        let c₂ = ho s₁.committed c₁ in
        Kept-query P _ _ _ c₂ λ event _. Kept-query P _ _ _ c₂ λ l found.
          let k = lock_owner_and_target-Locked _ _ _ _ _ _ found in
          Kept-gets P _ _ _ (
            Kept-guard P _ _ _ _ c₂ λ _. Kept-write P _ _ _ c₂ λ d₁ rehashed.
              let c₃ =
                withdrawn-IsConsistent l.target.id k.target_row d₁
                  (set_invite_hash-IsConsistent _ _ _ _ rehashed c₂)
                  (membership_for-memberships l.target.id d₁ (others s₁.committed)
                      (memberships-set_invite_hash _ _ _ _ rehashed)
                    ∙ k.target_found)
                  k.serves in
              let c₄ = journal-IsConsistent _ _ _ _ _ _ _ _ _ _ _ _ c₃ in
              Kept-modify P _ _ _ (
                Kept-modify P _ _ _ (
                  Kept-modify P _ _ _
                    (Kept-commit P _ _ (Kept-query P _ _ _ c₄ λ _ _. Kept-pure P _ _ c₄))))))

drop_member-IsConsistent :
    (user : ℕ) (m : Membership) (d : Db)
    → IsConsistent d
    → membership_for user d ≡ some m
    → (r : MembershipRole) → m.role ≡ r
    → IsConsistent (drop_member user m.team_id r d)
unfolding drop_member
drop_member-IsConsistent user m d c e owner h = dissolved-IsConsistent user m d c e
drop_member-IsConsistent user m d c e member h = withdrawn-IsConsistent user m d c e h

locked_membership_sound :
    (user : ℕ) (d : Db) (m : Membership)
    → locked_membership user d ≡ ok m
    → membership_for user d ≡ some m
unfolding locked_membership
locked_membership_sound user d m h = ground arith

pub leave_team-Kept :
    (request : Request) (others : Db → Db) (s : Session)
    → Respects others
    → IsConsistent s.committed
    → Kept IsConsistent (leave_team request others) s
unfolding leave_team
leave_team-Kept request others s ho c =
    let P = IsConsistent in
    Kept-any P s _ _ (rate-Kept request s c) λ _ s₁ c₁. Kept-query P s₁ _ _ c₁ λ user _.
      Kept-wait P s₁ others _ (
        let c₂ = ho s₁.committed c₁ in
        Kept-query P _ _ _ c₂ λ event _. Kept-query P _ _ _ c₂ λ _ _.
          Kept-query P _ _ _ c₂ λ mine found. Kept-query P _ _ _ c₂ λ team _. Kept-gets P _ _ _ (
            Kept-guard P _ _ _ _ c₂ λ _. Kept-gets P _ _ _ (
              Kept-guard P _ _ _ _ c₂ λ _. Kept-gets P _ _ _ (
                Kept-guard P _ _ _ _ c₂ λ _.
                  let c₃ =
                    drop_member-IsConsistent user.id mine (others s₁.committed) c₂
                      (locked_membership_sound _ _ _ found) mine.role refl in
                  Kept-modify P _ _ _ (
                    Kept-modify P _ _ _ (
                      Kept-modify P _ _ _
                        (Kept-last P _ (journal-IsConsistent _ _ _ _ _ _ _ _ _ _ _ _ c₃))))))))
