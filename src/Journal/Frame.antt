-- ===== src/Journal/Frame.antt =====
-- The coalescing rows touch no other table.
use ctfnight.Base.{ℕ, ◌≡◌, refl, Option-cases, inl, inr, ◌&&◌, ◌==◌, Bool, not, is_some}
use ctfnight.Model.{
  Db, Metadata, Action, Topic, Target, action_index, topic_index, target_index, AuditEvent,
  OutboxEvent,
}
use ctfnight.Journal.{add_coalesced_audit, add_coalesced_outbox, newest_time, same_actor}

pub add_coalesced_audit-sessions :
    (now actor_id : ℕ) (action : Action) (target : Target) (id : ℕ) (metadata : Metadata) (d : Db)
    → (add_coalesced_audit now actor_id action target id metadata d).sessions ≡ d.sessions
unfolding add_coalesced_audit
add_coalesced_audit-sessions now actor_id action target id metadata d =
    let repeated : AuditEvent → Bool =
      λ x. same_actor actor_id x.actor_id && action_index x.action == action_index action in
    elim (Option-cases (newest_time repeated (λ x. x.created_at) d.audit_events)) [
      | inl e ↦ rw (e, add_coalesced_audit) refl
      | inr (t, e) ↦ rw (e, add_coalesced_audit) refl
    ]

pub add_coalesced_outbox-sessions :
    (now : ℕ) (topic : Topic) (target : Target) (id : ℕ) (payload : Metadata) (d : Db)
    → (add_coalesced_outbox now topic target id payload d).sessions ≡ d.sessions
unfolding add_coalesced_outbox
add_coalesced_outbox-sessions now topic target id payload d =
    let pending : OutboxEvent → Bool = λ x.
      topic_index x.topic == topic_index topic
      && (target_index x.aggregate_type == target_index target
          && (x.aggregate_id == id && not (is_some x.delivered_at))) in
    elim (Option-cases (newest_time pending (λ x. x.created_at) d.outbox_events)) [
      | inl e ↦ rw (e, add_coalesced_outbox) refl
      | inr (t, e) ↦ rw (e, add_coalesced_outbox) refl
    ]
