-- ===== src/Prerequisites/Loaded.antt =====
-- What `load_prerequisites` returns: challenges that exist, none of which leads to the challenge that
-- gets them.
use ctfnight.Base.{
  ℕ, ◌≡◌, inl, inr, Bool, true, Option, none, some, List, [], ◌∷◌, ok, arith, ◌==◌, ltb, contains,
  is_some, select_one, select_all, count_where, map, sort_by, count_where-sort_by, Result-cases,
}
use ctfnight.Model.{Db, Challenge}
use ctfnight.Prerequisites.{
  prerequisites_of, listed_rows, load_prerequisites, earlier, id_of, is_listed, cycle_guard,
}
use ctfnight.Prerequisites.Search.{Leads}
use ctfnight.Prerequisites.Decides.{load_prerequisites_decides}

abbrev pub with_id : ℕ → Challenge → Bool
with_id b c = c.id == b

pub contains-map :
    (b : ℕ) (cs : List Challenge) → contains b (map id_of cs) ≡ ltb 0 (count_where (with_id b) cs)
unfolding contains count_where
contains-map b [] = ground arith
contains-map b (c ∷ cs) = ground (arith, contains-map b cs)

is_some-select_one :
    (b : ℕ) (cs : List Challenge)
    → is_some (select_one (with_id b) cs) ≡ ltb 0 (count_where (with_id b) cs)
unfolding select_one count_where
is_some-select_one b [] = ground arith
is_some-select_one b (c ∷ cs) = ground (arith, is_some-select_one b cs)

contains-sort_by :
    (le : Challenge → Challenge → Bool) (b : ℕ) (cs : List Challenge)
    → contains b (map id_of (sort_by le cs)) ≡ contains b (map id_of cs)
contains-sort_by le b cs = ground (
  arith,
  contains-map b cs,
  contains-map b (sort_by le cs),
  count_where-sort_by le (with_id b) cs,
)

selected :
    (q : Challenge → Bool) (b : ℕ) (cs : List Challenge)
    → contains b (map id_of (select_all q cs)) ≡ true
    → is_some (select_one (with_id b) cs) ≡ true
unfolding contains select_all select_one
selected q b [] h = cc h
selected q b (c ∷ cs) h = ground (arith, selected q b cs)

module _ (d : Db) (event_id : ℕ) (ids : List ℕ) where
  listed_known :
      (challenge_id : Option ℕ) (rows : List Challenge)
      → listed_rows d event_id ids challenge_id ≡ ok rows
      → (b : ℕ) → contains b (map id_of rows) ≡ true
      → is_some (select_one (with_id b) d.challenges) ≡ true
  unfolding listed_rows
  listed_known challenge_id rows h b m =
      let e : rows ≡ select_all (is_listed event_id ids) d.challenges = ground arith in
      selected (is_listed event_id ids) b d.challenges (rw e at m)

  -- Without a challenge to guard against, there is no cycle check.
  pub load_prerequisites_known :
      (out : List ℕ)
      → load_prerequisites d event_id ids none ≡ ok out
      → (b : ℕ) → contains b out ≡ true
      → is_some (select_one (with_id b) d.challenges) ≡ true
  unfolding load_prerequisites cycle_guard
  load_prerequisites_known out h b m = elim (Result-cases (listed_rows d event_id ids none)) [
    | inr (x, e) ↦ ground arith
    | inl (rows, e) ↦
        let same : out ≡ map id_of (sort_by (earlier ids) rows) = ground arith in
        listed_known none rows e b (ground (arith, contains-sort_by (earlier ids) b rows))
  ]

  pub load_prerequisites_safe :
      (id : ℕ) (out : List ℕ)
      → load_prerequisites d event_id ids (some id) ≡ ok out
      → (b : ℕ) → contains b out ≡ true
      → (is_some (select_one (with_id b) d.challenges) ≡ true) × ¬ Leads (prerequisites_of d) id b
  unfolding load_prerequisites
  load_prerequisites_safe id out h b m =
      elim (Result-cases (listed_rows d event_id ids (some id))) [
        | inr (x, e) ↦ ground arith
        | inl (rows, e) ↦ elim (load_prerequisites_decides d event_id ids id rows e) [
          | inl (refused, v) ↦ ground arith
          | inr (loaded, v) ↦
              let same : out ≡ map id_of (sort_by (earlier ids) rows) = ground arith in
              let here : contains b (map id_of rows) ≡ true =
                ground (arith, contains-sort_by (earlier ids) b rows) in
              (listed_known (some id) rows e b here, v b here)
        ]
      ]
