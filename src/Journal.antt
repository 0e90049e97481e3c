-- ===== src/Journal.antt =====
-- Audit and outbox rows (backend/src/alpha/services.py), plain and coalescing.
pub mod Frame
use ctfnight.Base.{
  ℕ, ◌+◌, max, String, Bool, true, false, ◌&&◌, not, Option, none, some, List, [], ◌∷◌, insert_row,
  is_some, if◌then◌else◌, ◌==◌, to_num, get, put, string_keys,
}
use ctfnight.Model.{
  Db, Json, Metadata, Action, Topic, Target, action_index, topic_index, target_index, AuditEvent,
  OutboxEvent,
}
use ctfnight.Base.{string_keys}

unfoldable pub add_audit : ℕ → Option ℕ → Action → Target → Option ℕ → Metadata → Db → Db
add_audit now actor_id action target_type target_id metadata d = record d {
  audit_events =
      insert_row
        (record {
          actor_id = actor_id;
          action = action;
          target_type = target_type;
          target_id = target_id;
          metadata_json = metadata;
          created_at = now;
        })
        d.audit_events;
}

unfoldable pub add_outbox : ℕ → Topic → Target → ℕ → Metadata → Db → Db
add_outbox now topic aggregate_type aggregate_id payload d = record d {
  outbox_events =
      insert_row
        (record {
          topic = topic;
          aggregate_type = aggregate_type;
          aggregate_id = aggregate_id;
          payload_json = payload;
          created_at = now;
          delivered_at = none;
          attempts = 0;
        })
        d.outbox_events;
}

-- The newest time of a row that passes the test.
newest_time : {A : Type 0} → (A → Bool) → (A → ℕ) → List A → Option ℕ
newest_time p time [] = none
newest_time p time (x ∷ xs) =
    let rest = newest_time p time xs in
    if p x then some (elim rest [ none ↦ time x | some t ↦ max (time x) t ]) else rest

update_first : {A : Type 0} → (A → Bool) → (A → A) → List A → List A
update_first p f [] = []
update_first p f (x ∷ xs) = let rest = update_first p f xs in if p x then f x ∷ xs else x ∷ rest

-- `dict.update`
updated : Metadata → Metadata → Metadata
updated values [] = values
updated values ((key, value) ∷ rest) = updated (put key value values) rest

-- `occurrences + 1 if isinstance(occurrences, int) else 2`, where a missing count is 1.
one_more : Option Json → Json
one_more none = Json.number 2
one_more (some (Json.number n)) = Json.number (n + 1)
one_more (some (Json.flag b)) = Json.number (to_num b + 1)
one_more (some _) = Json.number 2

set_default : String → Json → Metadata → Metadata
set_default key value values = elim (get key values) [
  | none ↦ put key value values
  | some _ ↦ values
]

same_actor : ℕ → Option ℕ → Bool
same_actor actor_id none = false
same_actor actor_id (some id) = id == actor_id

unfoldable pub add_coalesced_audit : ℕ → ℕ → Action → Target → ℕ → Metadata → Db → Db
unfolding newest_time update_first updated one_more set_default same_actor
add_coalesced_audit now actor_id action target_type target_id metadata d =
    let repeated : AuditEvent → Bool =
      λ x. same_actor actor_id x.actor_id && action_index x.action == action_index action in
    elim (newest_time repeated (λ x. x.created_at) d.audit_events) [
      | none ↦ record d {
        audit_events =
            insert_row
              (record {
                actor_id = some actor_id;
                action = action;
                target_type = target_type;
                target_id = some target_id;
                metadata_json = put "last_seen_at" (Json.stamp now) (
                    put "first_seen_at" (Json.stamp now)
                      (put "occurrences" (Json.number 1) metadata));
                created_at = now;
              })
              d.audit_events;
      }
      | some t ↦ record d {
        audit_events =
            update_first (λ x. repeated x && x.created_at == t)
              (λ x. record x {
                target_type = target_type;
                target_id = some target_id;
                metadata_json = put "last_seen_at" (Json.stamp now) (
                    set_default "first_seen_at" (Json.stamp x.created_at) (
                      put "occurrences" (one_more (get "occurrences" x.metadata_json))
                        (updated x.metadata_json metadata)));
                created_at = now;
              })
              d.audit_events;
      }
    ]

unfoldable pub add_coalesced_outbox : ℕ → Topic → Target → ℕ → Metadata → Db → Db
unfolding newest_time update_first updated one_more
add_coalesced_outbox now topic aggregate_type aggregate_id payload d =
    let pending : OutboxEvent → Bool = λ x.
      topic_index x.topic == topic_index topic
      && (target_index x.aggregate_type == target_index aggregate_type
          && (x.aggregate_id == aggregate_id && not (is_some x.delivered_at))) in
    elim (newest_time pending (λ x. x.created_at) d.outbox_events) [
      | none ↦ record d {
        outbox_events =
            insert_row
              (record {
                topic = topic;
                aggregate_type = aggregate_type;
                aggregate_id = aggregate_id;
                payload_json = put "occurrences" (Json.number 1) payload;
                created_at = now;
                delivered_at = none;
                attempts = 0;
              })
              d.outbox_events;
      }
      | some t ↦ record d {
        outbox_events =
            update_first (λ x. pending x && x.created_at == t)
              (λ x. record x {
                payload_json =
                    put "occurrences" (one_more (get "occurrences" x.payload_json))
                      (updated x.payload_json payload);
                created_at = now;
              })
              d.outbox_events;
      }
    ]
