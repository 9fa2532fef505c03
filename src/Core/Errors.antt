-- ===== src/Core/Errors.antt =====
-- core/errors.py and the failure value of core/execution.py: error codes, service errors, and what
-- of them a record may show.
use foliqant.Prelude.{
  ℕ, code, String, ◌≡◌, refl, Bool, true, false, ◌&&◌, ◌||◌, Option, none, some, arith, leb, ◌==◌,
  if◌then◌else◌,
}
use Prim.Native.String.{count}

pub data ErrorCode : Type 0 where
  invalid_configuration invalid_input invalid_output invalid_tool_call : ErrorCode
  output_limit_reached output_refused context_limit_exceeded request_rejected : ErrorCode
  model_not_found unauthenticated forbidden not_found missing_binding : ErrorCode
  request_timeout run_timeout step_limit_reached model_request_limit_reached : ErrorCode
  iteration_limit_reached tool_call_limit_reached rate_limited dependency_overloaded : ErrorCode
  dependency_failure tool_error tool_output_limit_exceeded tool_catalog_mismatch : ErrorCode
  handler_failed conflict uncertain_effect cancelled capacity_exceeded : ErrorCode

pub data FailureReason : Type 0 where
  json_parse_error schema_violation decision_contract : FailureReason
  missing_output reasoning_consumed_budget answer_exceeded_budget : FailureReason

abbrev in_range : ℕ → ℕ → ℕ → Bool
in_range lo hi c = leb lo c && leb c hi

-- `[A-Za-z0-9_.:*/-]`
is_location_char : ℕ → Bool
is_location_char c =
    in_range b'A' b'Z' c
    || in_range b'a' b'z' c
    || in_range b'0' b'9' c
    || c == b'_'
    || c == b'.'
    || c == b':'
    || c == b'*'
    || c == b'/'
    || c == b'-'

-- `[a-z0-9_]`
is_constraint_char : ℕ → Bool
is_constraint_char c = in_range b'a' b'z' c || in_range b'0' b'9' c || c == b'_'

all_chars : (ℕ → Bool) → String → Bool
all_chars p String.[] = true
all_chars p (String.◌∷◌ c s) = p (code c) && all_chars p s

-- `_LOCATION.fullmatch`
location_matches : String → Bool
unfolding all_chars is_location_char
location_matches s = leb 1 (count s) && leb (count s) 256 && all_chars is_location_char s

-- `_CONSTRAINT.fullmatch`
constraint_matches : String → Bool
unfolding all_chars is_constraint_char
constraint_matches String.[] = false
constraint_matches (String.◌∷◌ c s) =
    in_range b'a' b'z' (code c) && leb (count s) 63 && all_chars is_constraint_char s

unfoldable pub safe_location : Option String → Option String
unfolding location_matches
safe_location none = none
safe_location (some s) = if location_matches s then some s else none

unfoldable pub safe_constraint : Option String → Option String
unfolding constraint_matches
safe_constraint none = none
safe_constraint (some s) = if constraint_matches s then some s else none

-- The exception `ServiceError`; `Failure` has the same fields and is what a record keeps of it.
pub record ServiceError : Type 0 where
  pub code : ErrorCode
  pub retryable : Bool
  pub reason : Option FailureReason
  pub location : Option String
  pub constraint : Option String

pub record Failure : Type 0 where
  pub code : ErrorCode
  pub retryable : Bool
  pub reason : Option FailureReason
  pub location : Option String
  pub constraint : Option String

-- `ServiceError(code)`
abbrev pub service_error : ErrorCode → ServiceError
service_error c = record {
  code = c;
  retryable = false;
  reason = none;
  location = none;
  constraint = none;
}

-- `ServiceError.__init__` with every argument
unfoldable pub make_service_error :
    ErrorCode → Bool → Option FailureReason → Option String → Option String → ServiceError
unfolding safe_location safe_constraint
make_service_error c r why loc con = record {
  code = c;
  retryable = r;
  reason = why;
  location = safe_location loc;
  constraint = safe_constraint con;
}

-- `Failure(...)` with `__post_init__`
unfoldable pub make_failure :
    ErrorCode → Bool → Option FailureReason → Option String → Option String → Failure
unfolding safe_location safe_constraint
make_failure c r why loc con = record {
  code = c;
  retryable = r;
  reason = why;
  location = safe_location loc;
  constraint = safe_constraint con;
}

-- `Failure(code)`
unfoldable pub failure_of_code : ErrorCode → Failure
unfolding make_failure
failure_of_code c = make_failure c false none none none

-- `Failure.of`
unfoldable pub failure_of : ServiceError → Failure
unfolding make_failure
failure_of e = make_failure e.code e.retryable e.reason e.location e.constraint

-- `code in TIMEOUT_CODES`
unfoldable pub is_timeout_code : ErrorCode → Bool
is_timeout_code ErrorCode.request_timeout = true
is_timeout_code ErrorCode.run_timeout = true
is_timeout_code _ = false

-- times are natural numbers of clock ticks
unfoldable pub timeout_code : ℕ → ℕ → ErrorCode
timeout_code now run_deadline =
    if leb run_deadline now then ErrorCode.run_timeout else ErrorCode.request_timeout

-- What a Python expression may raise.
pub data Exn : Type 0 where
  service : ServiceError → Exn
  timeout : Exn
  other : Exn
  cancelled : Exn

pub safe_location_idem : (s : Option String) → safe_location (safe_location s) ≡ safe_location s
unfolding safe_location
safe_location_idem none = refl
safe_location_idem (some s) = ground arith

pub safe_constraint_idem :
    (s : Option String) → safe_constraint (safe_constraint s) ≡ safe_constraint s
unfolding safe_constraint
safe_constraint_idem none = refl
safe_constraint_idem (some s) = ground arith
