-- ===== src/Accounts/Register/Limit.antt =====
-- No registration takes a registration code past its uses, however it ends.
use ctfnight.Base.{ℕ, ◌≡◌, Option, Result, ok, Bool-cases, inl, inr, ◌∙◌}
use ctfnight.Model.{Db, User, Event, RegistrationCode, is_individual}
use ctfnight.Access.{Request}
use ctfnight.App.{Session, App, ◌>>=◌, write, modify, commit}
use ctfnight.App.Keeps.{
  Kept, Kept-write, Kept-modify, Kept-last, Kept-query, Kept-lift, Kept-wait, Kept-any, Kept-tiers,
  Kept-catch, Kept-gets-last,
}
use ctfnight.Accounts.Codes.{count_use}
use ctfnight.Accounts.Register.{
  RegisterRequest, RegisterDraw, register, may_register, add_solo_team, check_auth_rate,
}
use ctfnight.Accounts.Register.Uses.{IsWithinUses, count_use-IsWithinUses}
use ctfnight.Accounts.Register.Frame.{
  LeavesCodes, insert_user-LeavesCodes, insert_team-LeavesCodes, insert_membership-LeavesCodes,
  new_session-LeavesCodes, journal-LeavesCodes, audit-LeavesCodes,
}
use ctfnight.App.Sequence.{Kept-assoc, Kept-pure_then}

module _ (request : Request) (payload : RegisterRequest) (draw : RegisterDraw) (now : ℕ) (d : Db)
    (event : Event) (code : Option RegistrationCode)
    (allowed : may_register request payload now d ≡ ok (event, code)) (w : IsWithinUses d) where
  -- The writes after the optional team of one.
  closing-Kept :
      (row : Db → Result Db) (audit outbox : Db → Db) (t : Session)
      → LeavesCodes row
      → ((x : Db) → (outbox (audit x)).registration_codes ≡ x.registration_codes)
      → IsWithinUses t.committed
      → t.db.registration_codes ≡ d.registration_codes
      → Kept IsWithinUses
          (write row >>= λ _.
            modify audit >>= λ _. modify outbox >>= λ _. modify (count_use code) >>= λ _. commit)
          t
  closing-Kept row audit outbox t leaves journal c same =
      let P = IsWithinUses in
      Kept-write P t _ _ c λ e made. Kept-modify P _ _ _ (
        Kept-modify P _ _ _ (
          Kept-modify P _ _ _ (
            Kept-last P _ (
              count_use-IsWithinUses request payload now d event code _ allowed
                (journal e ∙ leaves t.db e made ∙ same) w))))

  solo-Kept :
      (user : User) (k : Unit {0} → App (Unit {0})) (t : Session)
      → IsWithinUses t.committed
      → t.db.registration_codes ≡ d.registration_codes
      → ((u : Session)
          → IsWithinUses u.committed
          → u.db.registration_codes ≡ d.registration_codes
          → Kept IsWithinUses (k tt) u)
      → Kept IsWithinUses (add_solo_team request payload draw user >>= k) t
  unfolding add_solo_team
  solo-Kept user k t c same rest =
      let P = IsWithinUses in
      Kept-assoc P t _ _ _ (
        Kept-write P t _ _ c λ e₁ made₁. Kept-assoc P _ _ _ _ (
          Kept-write P _ _ _ c λ e₂ made₂. Kept-modify P _ _ _ (
            rest _ c (
              audit-LeavesCodes _ _ _ _ _ _ e₂
              ∙ insert_membership-LeavesCodes _ e₁ e₂ made₂
              ∙ insert_team-LeavesCodes _ _ t.db e₁ made₁
              ∙ same))))

abbrev pub Respects : (Db → Db) → Type 0
Respects others = (d : Db) → IsWithinUses d → IsWithinUses (others d)

register-Kept :
    (request : Request) (others : Db → Db) (draw : RegisterDraw) (payload : RegisterRequest)
    (s : Session)
    → Respects others
    → IsWithinUses s.committed
    → Kept IsWithinUses (register request others draw payload) s
unfolding register check_auth_rate
register-Kept request others draw payload s ho c =
    let P = IsWithinUses in
    Kept-any P s _ _ (Kept-tiers P _ _ _ s c) λ _ s₁ c₁. Kept-query P s₁ _ _ c₁ λ _ _.
      Kept-any P s₁ _ _ (Kept-lift P _ s₁ c₁) λ hash s₂ c₂. Kept-wait P s₂ others _ (
        let c₃ = ho s₂.committed c₂ in
        Kept-query P _ _ _ c₃ λ allowed ok_now.
          Kept-any P _ _ _
            (Kept-catch P _ _ _ (
              Kept-write P _ _ _ c₃ λ d₁ made.
                let same = insert_user-LeavesCodes _ _ (others s₂.committed) d₁ made in
                let closing =
                  closing-Kept request payload draw draw.locked (others s₂.committed) allowed.0
                    allowed.1 ok_now c₃ in
                elim (Bool-cases (is_individual allowed.0.team_mode)) [
                  | inl y ↦ rw y (
                      solo-Kept request payload draw draw.locked (others s₂.committed) allowed.0
                        allowed.1 ok_now c₃ _ _ _ c₃ same
                        λ u cu su.
                          closing _ _ _ u (new_session-LeavesCodes _ _ _)
                            (λ x. journal-LeavesCodes _ _ _ _ _ _ _ _ _ _ _ x) cu su)
                  | inr n ↦ rw n (
                      Kept-pure_then P _ _ (
                        closing _ _ _ _ (new_session-LeavesCodes _ _ _)
                          (λ x. journal-LeavesCodes _ _ _ _ _ _ _ _ _ _ _ x) c₃ same))
                ]))
            λ _ s₄ c₄. Kept-gets-last P s₄ _ c₄)

-- However a registration ends, and whatever other sessions that keep this commit while it waits, the
-- committed codes stay within their uses: none has been used more often than it may be.
pub register-IsWithinUses :
    (request : Request) (others : Db → Db) (draw : RegisterDraw) (payload : RegisterRequest)
    (s : Session)
    → Respects others
    → IsWithinUses s.committed
    → IsWithinUses (register request others draw payload s).1.committed
register-IsWithinUses request others draw payload s ho c =
    unfold Kept in register-Kept request others draw payload s ho c
