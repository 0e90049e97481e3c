-- ===== src/App/Limits.antt =====
-- The tiers of rate limits that the routers check before they touch the database
-- (`_check_team_mutation_rate`, `_check_submission_rate`, `_check_auth_rate`).
use ctfnight.Base.{ℕ, Bool, some, List, [], ◌∷◌, ok, err, api, api_error, Code}
use ctfnight.Store.{Key, check_rate}
use ctfnight.App.{App}

pub record Tier : Type 0 where
  pub key : Key
  pub limit : ℕ
  pub window_seconds : ℕ

-- The exception of the store becomes `rate_limit_unavailable`; a refusal ends the loop.
unfoldable pub check_tiers : Code → ℕ → List Tier → App (Unit {0})
check_tiers code now [] s = (ok tt, s)
check_tiers code now (tier ∷ rest) s =
    let r = check_rate tier.key tier.limit tier.window_seconds now s.store in
    elim r.0 [
      | err _ ↦ (err (api 503 Code.rate_limit_unavailable), record s { store = r.1 })
      | ok result ↦ elim result.allowed [
        | Bool.true ↦ check_tiers code now rest (record s { store = r.1 })
        | Bool.false ↦
            (err (api_error 429 code (some result.retry_after)), record s { store = r.1 })
      ]
    ]
