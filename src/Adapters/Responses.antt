-- ===== src/Adapters/Responses.antt =====
-- adapters/execution/retry.py: the failure that a completed HTTP response stands for.
pub mod Table
use Prim.Native.String.{count}
use foliqant.Prelude.{
  ℕ, ◌<◌, String, str_eq, Bool, true, false, ◌&&◌, not, Option, none, some, List, [], ◌∷◌, leb, ltb,
  ◌==◌, if◌then◌else◌, Dict,
}
use foliqant.Prelude.Int.{ℤ, pos, negsuc, pos_part}
use foliqant.Core.Errors.{
  ErrorCode, ServiceError, service_error, request_timeout, rate_limited, dependency_failure,
  dependency_overloaded, unauthenticated, forbidden, request_rejected,
}
use foliqant.Core.Json.{Float, finite, infinity, nan}
use foliqant.Core.Retry.{TransientFailure, Raise, transient, service}

-- `TRANSIENT_HTTP_STATUSES.get(status)`
unfoldable pub transient_status : ℕ → Option ErrorCode
transient_status status =
    if status == 408
    then some request_timeout
    else (if status == 429
        then some rate_limited
        else (if status == 500
            then some dependency_failure
            else (if status == 502
                then some dependency_failure
                else (if status == 503
                    then some dependency_overloaded
                    else (if status == 504
                        then some request_timeout
                        else if status == 529
                        then some dependency_overloaded
                        else none)))))

-- `_TERMINAL_HTTP_STATUSES.get(status)`
unfoldable pub terminal_status : ℕ → Option ErrorCode
terminal_status status =
    if status == 401 then some unauthenticated else if status == 403 then some forbidden else none

-- What `parsedate_to_datetime` makes of a text: it raises, it has no time zone, or it is some seconds
-- from now, which is negative for a date in the past.
pub data ParsedDate : Type 0 where
  no_date no_zone : ParsedDate
  from_now : ℤ → ParsedDate

-- `max(0.0, ...)`, in units of 2^-1074 seconds as a double is
abbrev pub never_negative : ℤ → Float
never_negative seconds = finite (pos (pos_part seconds))

-- `not math.isfinite(delay) or delay < 0`, and the delay otherwise
unfoldable pub usable : Float → Option ℕ
usable (finite (pos n)) = some n
usable (finite (negsuc n)) = none
usable (infinity negative) = none
usable nan = none

-- `str.lower`, `float` of a text (none where it raises) and the parser of dates
module _ (lower : String → String) (to_float : String → Option Float)
    (parsedate : String → ParsedDate) where
  -- the first value whose key is `retry-after` in some case
  unfoldable pub retry_after : Dict String → Option String
  retry_after [] = none
  retry_after ((key, value) ∷ headers) =
      let later = retry_after headers in
      if str_eq (lower key) "retry-after" then some value else later

  abbrev pub date_delay : ParsedDate → Option ℕ
  date_delay no_date = none
  date_delay no_zone = none
  date_delay (from_now seconds) = usable (never_negative seconds)

  abbrev pub read_delay : Option Float → String → Option ℕ
  read_delay (some seconds) value = usable seconds
  read_delay none value = date_delay (parsedate value)

  -- the delay that a value of the header asks for, none where it is not valid
  unfoldable pub header_delay : String → Option ℕ
  unfolding usable
  header_delay value = if ltb 128 (count value) then none else read_delay (to_float value) value

  abbrev pub failure : ErrorCode → Option ℕ → TransientFailure
  failure code delay = record {
    error = record (service_error code) { retryable = true };
    retry_after_seconds = delay;
  }

  abbrev pub with_delay : ErrorCode → Option ℕ → Option TransientFailure
  with_delay code none = none
  with_delay code (some delay) = some (failure code (some delay))

  abbrev pub with_header : ErrorCode → Option String → Option TransientFailure
  with_header code none = some (failure code none)
  with_header code (some value) = with_delay code (header_delay value)

  abbrev pub response_of : Option ErrorCode → Dict String → Option TransientFailure
  response_of none headers = none
  response_of (some code) headers = with_header code (retry_after headers)

  unfoldable pub transient_response : ℕ → Dict String → Option TransientFailure
  unfolding transient_status retry_after header_delay
  transient_response status headers = response_of (transient_status status) headers

  -- the code of a status that is neither terminal nor may be tried again
  abbrev pub other_code : ℕ → Option ErrorCode → ErrorCode
  other_code status (some code) = code
  other_code status none =
      if leb 400 status && ltb status 500 && not (status == 404)
      then request_rejected
      else dependency_failure

  abbrev pub or_other : ℕ → Option TransientFailure → Raise
  or_other status (some t) = transient t
  or_other status none = service (service_error (other_code status (transient_status status)))

  abbrev pub unless_terminal : Option ErrorCode → ℕ → Dict String → Raise
  unless_terminal (some code) status headers = service (service_error code)
  unless_terminal none status headers = or_other status (transient_response status headers)

  unfoldable pub http_failure : ℕ → Dict String → Raise
  unfolding terminal_status transient_response
  http_failure status headers = unless_terminal (terminal_status status) status headers
