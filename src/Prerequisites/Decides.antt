-- ===== src/Prerequisites/Decides.antt =====
-- The cycle check of `load_prerequisites` decides whether a chain of prerequisites leads from one of
-- the proposed prerequisites to the challenge.
use ctfnight.Base.{
  ℕ, ◌≡◌, refl, inl, inr, ◌⊎◌, Bool, true, false, none, some, List, [], ◌∷◌, arith, ◌==◌, contains,
  length, map, select_one, Bool-cases, ok, err, api, Code, sort_by,
}
use ctfnight.Model.{Db, Challenge}
use ctfnight.Prerequisites.{
  prerequisites_of, reaches_target, creates_cycle, cycle_guard, search_fuel, id_of, earlier,
  listed_rows, load_prerequisites,
}
use ctfnight.Prerequisites.Search.{
  Leads, reaches_target_sound, reaches_target_closed, expanded_blocks,
}
use ctfnight.Prerequisites.Ends.{Ends, unseen-nil, reaches_target-Ends}

outside :
    (cs : List Challenge) (a : ℕ)
    → contains a (map id_of cs) ≡ false
    → select_one (λ (c : Challenge). c.id == a) cs ≡ none
unfolding contains select_one
outside [] a h = refl
outside (c ∷ cs) a h = ground (arith, outside cs a)

length-map : (cs : List Challenge) → length (map id_of cs) ≡ length cs
length-map [] = refl
length-map (c ∷ cs) = omega (arith, length-map cs)

module _ (d : Db) (target : ℕ) where
  inside : (a : ℕ) → contains a (map id_of d.challenges) ≡ false → prerequisites_of d a ≡ []
  unfolding prerequisites_of
  inside a h = rw (outside d.challenges a h, prerequisites_of) refl

  -- One of the rows leads to the target, or none of them does.
  abbrev pub Verdict : List ℕ → Bool → Type 0
  Verdict rows true = (x : ℕ) × (contains x rows ≡ true) × Leads (prerequisites_of d) target x
  Verdict rows false = (x : ℕ) → contains x rows ≡ true → ¬ Leads (prerequisites_of d) target x

  pub creates_cycle_decides :
      (rows : List ℕ)
      → (b : Bool) × (creates_cycle (prerequisites_of d) target (search_fuel d) rows ≡ some b)
        × Verdict rows b
  unfolding creates_cycle contains
  creates_cycle_decides [] = (false, refl, λ x m. cc m)
  creates_cycle_decides (row ∷ rows) =
      after
        (reaches_target-Ends (prerequisites_of d) target (map id_of d.challenges) inside
          (search_fuel d) row []
          (omega (arith, unseen-nil (map id_of d.challenges), length-map d.challenges)))
        (creates_cycle_decides rows)
    where
      after :
          Ends
            (prerequisites_of d)
            target
            (map id_of d.challenges)
            inside
            (reaches_target (prerequisites_of d) target (search_fuel d) row [])
            []
          → ((b : Bool) × (creates_cycle (prerequisites_of d) target (search_fuel d) rows ≡ some b)
              × Verdict rows b)
          → (b : Bool) × (creates_cycle (prerequisites_of d) target (search_fuel d) (row ∷ rows)
              ≡ some b)
            × Verdict (row ∷ rows) b
      after (true, s, e, le) rest = (
        true,
        rw (e, creates_cycle) refl,
        (
          row,
          ground arith,
          reaches_target_sound (prerequisites_of d) target (search_fuel d) row [] s e,
        ),
      )
      after (false, s, e, le) (true, e', found) =
          let (x, m, l) = found in (true, rw (e, creates_cycle) e', (x, ground arith, l))
      after (false, s, e, le) (false, e', none_leads) = (
        false,
        rw (e, creates_cycle) e',
        λ x m l. elim (Bool-cases (row == x)) [
          | inl same ↦
              let (q, here) =
                reaches_target_closed (prerequisites_of d) target (search_fuel d) row [] s e in
              let there = expanded_blocks (prerequisites_of d) target s q l in ground arith
          | inr other ↦ none_leads x (ground arith) l
        ],
      )

-- For challenges of the event that were found for the list, the check ends: either it refuses the
-- list for a cycle, and then one of them leads to the challenge by a chain of prerequisites, or it
-- returns the list, and then none of them does.
pub load_prerequisites_decides :
    (d : Db) (event_id : ℕ) (ids : List ℕ) (id : ℕ) (rows : List Challenge)
    → listed_rows d event_id ids (some id) ≡ ok rows
    → ((load_prerequisites d event_id ids (some id) ≡ err (api 422 Code.prerequisite_cycle))
        × Verdict d id (map id_of rows) true)
      ⊎ ((load_prerequisites d event_id ids (some id) ≡ ok (map id_of (sort_by (earlier ids) rows)))
          × Verdict d id (map id_of rows) false)
unfolding load_prerequisites cycle_guard
load_prerequisites_decides d event_id ids id rows h =
    after (creates_cycle_decides d id (map id_of rows))
  where
    after :
        ((b : Bool) × (creates_cycle (prerequisites_of d) id (search_fuel d) (map id_of rows)
            ≡ some b)
          × Verdict d id (map id_of rows) b)
        → ((load_prerequisites d event_id ids (some id) ≡ err (api 422 Code.prerequisite_cycle))
            × Verdict d id (map id_of rows) true)
          ⊎ ((load_prerequisites d event_id ids (some id)
                ≡ ok (map id_of (sort_by (earlier ids) rows)))
              × Verdict d id (map id_of rows) false)
    after (true, e, v) = inl (rw (h, e, load_prerequisites, cycle_guard) refl, v)
    after (false, e, v) = inr (rw (h, e, load_prerequisites, cycle_guard) refl, v)
