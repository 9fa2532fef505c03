-- ===== src/Adapters/Responses/Table.antt =====
-- The failures of `http_failure` of adapters/execution/retry.py, status by status.
use foliqant.Prelude.{
  ℕ, String, ◌≡◌, inl, inr, refl, arith, Bool, true, false, ◌&&◌, not, Option, none, some, is_some,
  leb, ltb, ◌==◌, if◌then◌else◌, Dict, Option-cases,
}
use foliqant.Core.Errors.{ErrorCode, request_rejected, dependency_failure}
use foliqant.Core.Json.{Float}
use foliqant.Core.Retry.{Raise, transient, service}
use foliqant.Adapters.Responses.{
  transient_status, terminal_status, ParsedDate, retry_after, header_delay, transient_response,
  http_failure,
}

abbrev pub may_repeat : Raise → Bool
may_repeat (transient _) = true
may_repeat _ = false

abbrev pub HasCode : ErrorCode → Raise → Type 0
HasCode code (transient t) = t.error.code ≡ code
HasCode code (service e) = e.code ≡ code
HasCode code _ = ⊥

-- the code of a status by the two tables, whatever the headers
abbrev pub status_code : Option ErrorCode → Option ErrorCode → ℕ → ErrorCode
status_code (some terminal) again status = terminal
status_code none (some again) status = again
status_code none none status =
    if leb 400 status && ltb status 500 && not (status == 404)
    then request_rejected
    else dependency_failure

-- no status is in both tables
pub terminal-transient :
    (status : ℕ) (code : ErrorCode)
    → terminal_status status ≡ some code
    → transient_status status ≡ none
unfolding terminal_status transient_status
terminal-transient status code h = ground arith

module _ (lower : String → String) (to_float : String → Option Float)
    (parsedate : String → ParsedDate) where
  -- no header, or one whose delay is valid
  abbrev pub permits : Option String → Bool
  permits none = true
  permits (some value) = is_some (header_delay lower to_float parsedate value)

  -- A response may be tried again exactly where its status is transient and its Retry-After is absent
  -- or valid; the failure's code depends on the status alone.
  pub http_failure_lem :
      (status : ℕ) (headers : Dict String)
      → let r = http_failure lower to_float parsedate status headers in
        (may_repeat r ≡ (
          is_some (transient_status status)
          && permits (retry_after lower to_float parsedate headers)))
        × HasCode (status_code (terminal_status status) (transient_status status) status) r
  unfolding http_failure transient_response
  http_failure_lem status headers = elim (Option-cases (terminal_status status)) [
    | inr (code, terminal) ↦ rw (terminal, terminal-transient status code terminal) (refl, refl)
    | inl retried ↦ elim (Option-cases (transient_status status)) [
      | inl never ↦ rw (retried, never, never) (refl, refl)
      | inr (code, again) ↦ elim (Option-cases (retry_after lower to_float parsedate headers)) [
        | inl bare ↦ rw (retried, again, bare) (refl, refl)
        | inr (value, given) ↦ elim (Option-cases (header_delay lower to_float parsedate value)) [
          | inl invalid ↦ rw (retried, again, given, invalid, again) (refl, refl)
          | inr (delay, valid) ↦ rw (retried, again, given, valid) (refl, refl)
        ]
      ]
    ]
  ]
