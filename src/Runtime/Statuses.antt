-- ===== src/Runtime/Statuses.antt =====
-- caikit/runtime/names.py: how the status codes of gRPC, of the core library and of HTTP correspond, and the
-- places that translate an error from one to the other.
use caikit.Common.{
  ◌≡◌, ◌↔◌, refl, ap, ◌∙◌, sym, ℕ, Bool, true, false, none, some, not, ◌||◌, [], ◌∷◌, Eq, ◌==◌,
  beq_refl, beq→eq, nat_eq, if◌then◌else◌,
}
use caikit.Common.Dict
use caikit.Common.Dict.{Dict}

-- `StatusCode.X` is `grpc_X`, `CaikitCoreStatusCode.X` is `core_X`.
pub data GrpcCode : Type 0 where
  grpc_ok grpc_cancelled grpc_unknown grpc_invalid_argument grpc_deadline_exceeded grpc_not_found
        grpc_already_exists grpc_permission_denied grpc_resource_exhausted grpc_failed_precondition
        grpc_aborted grpc_out_of_range grpc_unimplemented grpc_internal grpc_unavailable
        grpc_data_loss grpc_unauthenticated :
      GrpcCode

pub data CoreCode : Type 0 where
  core_not_found core_invalid_argument core_connection_error core_unauthorized core_forbidden
        core_unknown core_fatal :
      CoreCode

pub data StatusCode : Type 0 where
  grpc : GrpcCode → StatusCode
  core : CoreCode → StatusCode

-- The codes by number, for a test of equality.
abbrev pub number : StatusCode → ℕ
number (grpc grpc_ok) = 0
number (grpc grpc_cancelled) = 1
number (grpc grpc_unknown) = 2
number (grpc grpc_invalid_argument) = 3
number (grpc grpc_deadline_exceeded) = 4
number (grpc grpc_not_found) = 5
number (grpc grpc_already_exists) = 6
number (grpc grpc_permission_denied) = 7
number (grpc grpc_resource_exhausted) = 8
number (grpc grpc_failed_precondition) = 9
number (grpc grpc_aborted) = 10
number (grpc grpc_out_of_range) = 11
number (grpc grpc_unimplemented) = 12
number (grpc grpc_internal) = 13
number (grpc grpc_unavailable) = 14
number (grpc grpc_data_loss) = 15
number (grpc grpc_unauthenticated) = 16
number (core core_not_found) = 17
number (core core_invalid_argument) = 18
number (core core_connection_error) = 19
number (core core_unauthorized) = 20
number (core core_forbidden) = 21
number (core core_unknown) = 22
number (core core_fatal) = 23

unfoldable of_number : ℕ → StatusCode
of_number n =
    if n == 0
    then grpc grpc_ok
    else if n == 1
    then grpc grpc_cancelled
    else if n == 2
    then grpc grpc_unknown
    else if n == 3
    then grpc grpc_invalid_argument
    else if n == 4
    then grpc grpc_deadline_exceeded
    else if n == 5
    then grpc grpc_not_found
    else if n == 6
    then grpc grpc_already_exists
    else if n == 7
    then grpc grpc_permission_denied
    else if n == 8
    then grpc grpc_resource_exhausted
    else if n == 9
    then grpc grpc_failed_precondition
    else if n == 10
    then grpc grpc_aborted
    else if n == 11
    then grpc grpc_out_of_range
    else if n == 12
    then grpc grpc_unimplemented
    else if n == 13
    then grpc grpc_internal
    else if n == 14
    then grpc grpc_unavailable
    else if n == 15
    then grpc grpc_data_loss
    else if n == 16
    then grpc grpc_unauthenticated
    else if n == 17
    then core core_not_found
    else if n == 18
    then core core_invalid_argument
    else if n == 19
    then core core_connection_error
    else if n == 20
    then core core_unauthorized
    else if n == 21
    then core core_forbidden
    else if n == 22
    then core core_unknown
    else core core_fatal

of_number-number : (c : StatusCode) → of_number (number c) ≡ c
unfolding of_number
of_number-number (grpc grpc_ok) = refl
of_number-number (grpc grpc_cancelled) = refl
of_number-number (grpc grpc_unknown) = refl
of_number-number (grpc grpc_invalid_argument) = refl
of_number-number (grpc grpc_deadline_exceeded) = refl
of_number-number (grpc grpc_not_found) = refl
of_number-number (grpc grpc_already_exists) = refl
of_number-number (grpc grpc_permission_denied) = refl
of_number-number (grpc grpc_resource_exhausted) = refl
of_number-number (grpc grpc_failed_precondition) = refl
of_number-number (grpc grpc_aborted) = refl
of_number-number (grpc grpc_out_of_range) = refl
of_number-number (grpc grpc_unimplemented) = refl
of_number-number (grpc grpc_internal) = refl
of_number-number (grpc grpc_unavailable) = refl
of_number-number (grpc grpc_data_loss) = refl
of_number-number (grpc grpc_unauthenticated) = refl
of_number-number (core core_not_found) = refl
of_number-number (core core_invalid_argument) = refl
of_number-number (core core_connection_error) = refl
of_number-number (core core_unauthorized) = refl
of_number-number (core core_forbidden) = refl
of_number-number (core core_unknown) = refl
of_number-number (core core_fatal) = refl

pub number_iff : (a b : StatusCode) → ((number a == number b) ≡ true) ↔ (a ≡ b)
number_iff a b = (
  λ h. sym (of_number-number a) ∙ ap of_number (beq→eq h) ∙ of_number-number b,
  λ e. rw e (beq_refl (number b)),
)

instance abbrev pub status_code_eq : Eq StatusCode
status_code_eq = record { beq = λ a b. number a == number b; beq_iff = number_iff }

-- `STATUS_CODE_TO_HTTP`
abbrev pub status_code_to_http : Dict StatusCode ℕ
status_code_to_http =
    (grpc grpc_ok, 200)
    ∷ (grpc grpc_invalid_argument, 400)
    ∷ (grpc grpc_failed_precondition, 400)
    ∷ (grpc grpc_out_of_range, 400)
    ∷ (grpc grpc_unauthenticated, 401)
    ∷ (grpc grpc_permission_denied, 403)
    ∷ (grpc grpc_not_found, 404)
    ∷ (grpc grpc_already_exists, 409)
    ∷ (grpc grpc_aborted, 409)
    ∷ (grpc grpc_resource_exhausted, 429)
    ∷ (grpc grpc_cancelled, 499)
    ∷ (grpc grpc_unknown, 500)
    ∷ (grpc grpc_data_loss, 500)
    ∷ (grpc grpc_unimplemented, 501)
    ∷ (grpc grpc_unavailable, 501)
    ∷ (grpc grpc_deadline_exceeded, 504)
    ∷ (core core_invalid_argument, 400)
    ∷ (core core_unauthorized, 401)
    ∷ (core core_forbidden, 403)
    ∷ (core core_not_found, 404)
    ∷ (core core_connection_error, 500)
    ∷ (core core_unknown, 500)
    ∷ (core core_fatal, 500)
    ∷ []

-- The loop that fills `HTTP_TO_STATUS_CODE`, from the items that are left and what it has so far.
abbrev pub is_grpc : StatusCode → Bool
is_grpc (grpc c) = true
is_grpc (core c) = false

unfoldable pub invert_from : Dict ℕ StatusCode → Dict StatusCode ℕ → Dict ℕ StatusCode
invert_from codes [] = codes
invert_from codes ((key, val) ∷ items) =
    invert_from (if not (Dict.has codes val) || is_grpc key then Dict.put codes val key else codes)
      items

-- `HTTP_TO_STATUS_CODE`
unfoldable pub http_to_status_code : Dict ℕ StatusCode
unfolding invert_from
http_to_status_code = invert_from [] status_code_to_http

-- The code of the answer to a request that ends in an error (`_handle_exception` of the HTTP server).
unfoldable pub http_code : StatusCode → ℕ
http_code c = elim (Dict.get status_code_to_http c) [ some n ↦ n | none ↦ 500 ]

-- What the remote client raises when the answer is not 200.
unfoldable pub client_code : ℕ → StatusCode
unfolding http_to_status_code
client_code n = elim (Dict.get http_to_status_code n) [ some c ↦ c | none ↦ grpc grpc_unknown ]

-- `CAIKIT_STATUS_CODE_TO_GRPC`, in which every code is.
unfoldable pub caikit_status_code_to_grpc : CoreCode → GrpcCode
caikit_status_code_to_grpc core_invalid_argument = grpc_invalid_argument
caikit_status_code_to_grpc core_unauthorized = grpc_unauthenticated
caikit_status_code_to_grpc core_forbidden = grpc_permission_denied
caikit_status_code_to_grpc core_not_found = grpc_not_found
caikit_status_code_to_grpc core_connection_error = grpc_unavailable
caikit_status_code_to_grpc core_unknown = grpc_unknown
caikit_status_code_to_grpc core_fatal = grpc_internal
