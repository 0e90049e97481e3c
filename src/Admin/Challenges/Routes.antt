-- ===== src/Admin/Challenges/Routes.antt =====
-- Every route of challenges keeps them unlockable.
use ctfnight.Base.{ℕ, ◌≡◌, refl, inl, inr, Bool, none, some, List, ok, arith, Result-cases}
use ctfnight.Model.{Db, Challenge}
use ctfnight.Security.{FlagInput, apply_flag}
use ctfnight.Scoring.{Floats}
use ctfnight.Access.{Request}
use ctfnight.Journal.{add_audit, add_outbox}
use ctfnight.Prerequisites.{prerequisites_of, load_prerequisites}
use ctfnight.Prerequisites.Loaded.{load_prerequisites_known, load_prerequisites_safe}
use ctfnight.Admin.Challenges.{
  create_challenge, update_challenge, delete_challenge, set_visibility, ChallengeCreateRequest,
  ChallengePatch, apply_values, patched_flag, patched_prerequisites, save_challenge, slug_taken,
}
use ctfnight.Admin.EventUpdate.{Patch}
use ctfnight.Admin.Challenges.Unlock.{IsUnlockable, Exists, insert_challenge-IsUnlockable}
use ctfnight.Admin.Challenges.Unlock.Save.{
  save_challenge-IsUnlockable, keep_prerequisites-IsUnlockable,
}
use ctfnight.Admin.Challenges.Unlock.Drop.{drop_challenge-IsUnlockable}
use ctfnight.Admin.Challenges.Unlock.Found.{challenge_or_404-found}
use ctfnight.App.{Session}
use ctfnight.App.Keeps.{
  Kept, Kept-query, Kept-gets, Kept-any, Kept-catch, Kept-guard, Kept-write, Kept-modify, Kept-wait,
  Kept-commit, Kept-last, Kept-touch, Kept-gets-last, Kept-touch_last,
}

abbrev pub Respects : (Db → Db) → Type 0
Respects others = (d : Db) → IsUnlockable d → IsUnlockable (others d)

-- Rows of the journal are no challenges.
journal-IsUnlockable :
    (d after : Db) → after.challenges ≡ d.challenges → IsUnlockable d → IsUnlockable after
unfolding prerequisites_of
journal-IsUnlockable d after e u = record {
  ends = rw (e, prerequisites_of) u.ends;
  linked = rw (e, prerequisites_of) u.linked;
  single = rw e u.single;
}

apply_flag-same :
    (request : Request) (c stored : Challenge) (flag : FlagInput)
    → apply_flag request.crypto c flag request.settings.secret_key request.settings.max_flag_length
      ≡ ok stored
    → (stored.id ≡ c.id) × (stored.prerequisites ≡ c.prerequisites)
unfolding apply_flag
apply_flag-same request c stored flag h = ground arith

patched_flag-same :
    (request : Request) (patch : Patch FlagInput) (c stored : Challenge)
    → patched_flag request patch c ≡ ok stored
    → (stored.id ≡ c.id) × (stored.prerequisites ≡ c.prerequisites)
unfolding patched_flag
patched_flag-same request none c stored h = ground arith
patched_flag-same request (some none) c stored h = ground arith
patched_flag-same request (some (some flag)) c stored h = apply_flag-same request c stored flag h

pub create_challenge-Kept :
    (f : Floats) (request : Request) (others : Db → Db) (id : ℕ) (payload : ChallengeCreateRequest)
    (s : Session)
    → Respects others
    → IsUnlockable s.committed
    → Kept IsUnlockable (create_challenge f request others id payload) s
unfolding create_challenge add_audit add_outbox
create_challenge-Kept f request others id payload s ho u =
    let P = IsUnlockable in
    Kept-query P s _ _ u λ admin _. Kept-wait P s others _ (
      let u₂ = ho s.committed u in
      Kept-query P _ _ _ u₂ λ event _. Kept-query P _ _ _ u₂ λ _ _.
        Kept-query P _ _ _ u₂ λ flagged _. Kept-query P _ _ _ u₂ λ ids loaded.
          Kept-any P _ _ _
            (Kept-catch P _ _ _ (
              Kept-write P _ _ _ u₂ λ d₁ added. Kept-modify P _ _ _ (
                Kept-modify P _ _ _ (
                  Kept-last P _ (
                    journal-IsUnlockable d₁ _ refl (
                      insert_challenge-IsUnlockable _ d₁ _ u₂
                        (load_prerequisites_known _ _ _ ids loaded) added))))))
            λ _ s₃ u₃. Kept-touch P _ _ _ (Kept-gets-last P _ _ u₃))

-- Saving a challenge with the prerequisites that the request asks for, or with its old ones.
relinked-IsUnlockable :
    (d after : Db) (event_id : ℕ) (patch : Patch (List ℕ)) (c changed : Challenge)
    → IsUnlockable d
    → Exists d c.id
    → c.prerequisites ≡ prerequisites_of d c.id
    → patched_prerequisites event_id patch c d ≡ ok changed
    → save_challenge changed d ≡ ok after
    → IsUnlockable after
unfolding patched_prerequisites
relinked-IsUnlockable d after event_id none c changed u there same h saved =
    let e : c ≡ changed = ground arith in
    keep_prerequisites-IsUnlockable d after c u there (simp e saved) same
relinked-IsUnlockable d after event_id (some none) c changed u there same h saved =
    let e : c ≡ changed = ground arith in
    keep_prerequisites-IsUnlockable d after c u there (simp e saved) same
relinked-IsUnlockable d after event_id (some (some ids)) c changed u there same h saved =
    elim (Result-cases (load_prerequisites d event_id ids (some c.id))) [
      | inr (x, e) ↦ ground arith
      | inl (out, e) ↦
          let linked : Challenge = record c { prerequisites = out } in
          let e' : linked ≡ changed = ground arith in
          save_challenge-IsUnlockable d after linked u there (simp e' saved)
            (load_prerequisites_safe d event_id ids c.id out e)
    ]

same_slugs :
    (d d' : Db) (c : Challenge) → d'.challenges ≡ d.challenges → slug_taken c d' ≡ slug_taken c d
unfolding slug_taken
same_slugs d d' c e = rw e refl

-- What a save does to a database, it does to another with the same challenges.
resaved :
    (d d' after : Db) (c : Challenge)
    → d'.challenges ≡ d.challenges
    → save_challenge c d' ≡ ok after
    → save_challenge c d ≡ ok (record d { challenges = after.challenges })
unfolding save_challenge
resaved d d' after c e h = ground (arith, same_slugs d d' c e)

pub update_challenge-Kept :
    (f : Floats) (request : Request) (others : Db → Db) (id : ℕ) (patch : ChallengePatch)
    (s : Session)
    → Respects others
    → IsUnlockable s.committed
    → Kept IsUnlockable (update_challenge f request others id patch) s
unfolding update_challenge add_audit add_outbox apply_values
update_challenge-Kept f request others id patch s ho u =
    let P = IsUnlockable in
    Kept-query P s _ _ u λ admin _. Kept-wait P s others _ (
      let d = others s.committed in
      let u₂ = ho s.committed u in
      Kept-query P _ _ _ u₂ λ event _. Kept-query P _ _ _ u₂ λ _ _. Kept-query P _ _ _ u₂ λ c found.
        Kept-query P _ _ _ u₂ λ _ _. Kept-query P _ _ _ u₂ λ _ _.
          Kept-query P _ _ _ u₂ λ flagged set. Kept-query P _ _ _ u₂ λ changed loaded.
            let (same, there) = challenge_or_404-found d event id c u₂ found in
            let kept = patched_flag-same request patch.flag (apply_values patch c) flagged set in
            Kept-any P _ _ _
              (Kept-catch P _ _ _ (
                Kept-modify P _ _ _ (
                  Kept-modify P _ _ _ (
                    Kept-query P _ _ _ u₂ λ _ _. Kept-write P _ _ _ u₂ λ d₁ saved. Kept-last P _ (
                      journal-IsUnlockable _ _ refl (
                        relinked-IsUnlockable d _ event.id patch.prerequisite_ids flagged changed u₂
                          (simp (kept.0) there) (simp (kept.0, kept.1) same) loaded
                          (resaved d _ d₁ changed refl saved)))))))
              λ _ s₃ u₃. Kept-touch P _ _ _ (Kept-gets-last P _ _ u₃))

pub delete_challenge-Kept :
    (request : Request) (others : Db → Db) (id : ℕ) (s : Session)
    → Respects others
    → IsUnlockable s.committed
    → Kept IsUnlockable (delete_challenge request others id) s
unfolding delete_challenge add_audit add_outbox
delete_challenge-Kept request others id s ho u =
    let P = IsUnlockable in
    Kept-query P s _ _ u λ admin _. Kept-wait P s others _ (
      let u₂ = ho s.committed u in
      Kept-query P _ _ _ u₂ λ event _. Kept-query P _ _ _ u₂ λ _ _. Kept-query P _ _ _ u₂ λ c found.
        Kept-gets P _ _ _ (
          Kept-guard P _ _ _ _ u₂ λ _. Kept-modify P _ _ _ (
            Kept-modify P _ _ _ (
              Kept-modify P _ _ _ (
                Kept-commit P _ _ (
                  Kept-touch_last P _ _
                    (journal-IsUnlockable _ _ refl (drop_challenge-IsUnlockable _ c.id u₂))))))))

pub set_visibility-Kept :
    (f : Floats) (request : Request) (others : Db → Db) (id : ℕ) (visible : Bool) (s : Session)
    → Respects others
    → IsUnlockable s.committed
    → Kept IsUnlockable (set_visibility f request others id visible) s
unfolding set_visibility add_audit add_outbox
set_visibility-Kept f request others id visible s ho u =
    let P = IsUnlockable in
    Kept-query P s _ _ u λ admin _. Kept-wait P s others _ (
      let u₂ = ho s.committed u in
      Kept-query P _ _ _ u₂ λ event _. Kept-query P _ _ _ u₂ λ _ _. Kept-query P _ _ _ u₂ λ c found.
        let (same, there) = challenge_or_404-found _ event id c u₂ found in
        Kept-write P _ _ _ u₂ λ d₁ saved. Kept-modify P _ _ _ (
          Kept-modify P _ _ _ (
            Kept-commit P _ _ (
              Kept-gets-last P _ _ (
                journal-IsUnlockable d₁ _ refl
                  (keep_prerequisites-IsUnlockable _ d₁ _ u₂ there saved same))))))
