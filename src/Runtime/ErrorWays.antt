-- ===== src/Runtime/ErrorWays.antt =====
-- caikit/runtime/names.py: what the ways of an error to a client make of its code.
use caikit.Common.{
  ◌≡◌, refl, ℕ, Bool, true, false, some, not, ◌&&◌, [], ◌∷◌, ◌==◌, nat_eq, if◌then◌else◌, arith,
  Option-cases, inl, inr,
}
use caikit.Common.Dict
use caikit.Common.Dict.{Dict}
use caikit.Runtime.Statuses.{
  GrpcCode, CoreCode, StatusCode, grpc, core, grpc_ok, grpc_cancelled, grpc_unknown,
  grpc_invalid_argument, grpc_deadline_exceeded, grpc_not_found, grpc_already_exists,
  grpc_permission_denied, grpc_resource_exhausted, grpc_failed_precondition, grpc_aborted,
  grpc_out_of_range, grpc_unimplemented, grpc_internal, grpc_unavailable, grpc_data_loss,
  grpc_unauthenticated, core_not_found, core_invalid_argument, core_connection_error,
  core_unauthorized, core_forbidden, core_unknown, core_fatal, status_code_eq, is_grpc,
  status_code_to_http, http_to_status_code, invert_from, http_code, client_code,
  caikit_status_code_to_grpc,
}

-- Whether a code is in the table, with an HTTP code that no later gRPC code of the table has.
abbrev pub no_later : ℕ → Dict StatusCode ℕ → Bool
no_later n [] = true
no_later n ((key, val) ∷ items) = not (is_grpc key && (val == n)) && no_later n items

abbrev pub is_last : StatusCode → Dict StatusCode ℕ → Bool
is_last c [] = false
is_last c ((key, val) ∷ items) =
    let rest = is_last c items in if key == c then no_later val items else rest

-- Every HTTP code that a server answers an error with is read by the client as a code that the
-- server answers with the same HTTP code.
pub http_code-client_code : (c : StatusCode) → http_code (client_code (http_code c)) ≡ http_code c
unfolding http_code client_code http_to_status_code Dict.get Dict.has Dict.put invert_from
http_code-client_code (grpc grpc_ok) = refl
http_code-client_code (grpc grpc_cancelled) = refl
http_code-client_code (grpc grpc_unknown) = refl
http_code-client_code (grpc grpc_invalid_argument) = refl
http_code-client_code (grpc grpc_deadline_exceeded) = refl
http_code-client_code (grpc grpc_not_found) = refl
http_code-client_code (grpc grpc_already_exists) = refl
http_code-client_code (grpc grpc_permission_denied) = refl
http_code-client_code (grpc grpc_resource_exhausted) = refl
http_code-client_code (grpc grpc_failed_precondition) = refl
http_code-client_code (grpc grpc_aborted) = refl
http_code-client_code (grpc grpc_out_of_range) = refl
http_code-client_code (grpc grpc_unimplemented) = refl
http_code-client_code (grpc grpc_internal) = refl
http_code-client_code (grpc grpc_unavailable) = refl
http_code-client_code (grpc grpc_data_loss) = refl
http_code-client_code (grpc grpc_unauthenticated) = refl
http_code-client_code (core core_not_found) = refl
http_code-client_code (core core_invalid_argument) = refl
http_code-client_code (core core_connection_error) = refl
http_code-client_code (core core_unauthorized) = refl
http_code-client_code (core core_forbidden) = refl
http_code-client_code (core core_unknown) = refl
http_code-client_code (core core_fatal) = refl

abbrev all_grpc : Dict ℕ StatusCode → Bool
all_grpc [] = true
all_grpc ((val, key) ∷ codes) = is_grpc key && all_grpc codes

get-all_grpc :
    (codes : Dict ℕ StatusCode) (n : ℕ) (c : StatusCode)
    → all_grpc codes ≡ true
    → Dict.get codes n ≡ some c
    → is_grpc c ≡ true
unfolding Dict.get
get-all_grpc [] n c a g = absurd (ground arith)
get-all_grpc ((val, key) ∷ codes) n c a g = ground (arith, get-all_grpc codes n c)

all_grpc-http_to_status_code : all_grpc http_to_status_code ≡ true
unfolding http_to_status_code invert_from Dict.has Dict.put
all_grpc-http_to_status_code = refl

-- What the remote client raises has a gRPC code, whatever the HTTP code of the answer.
pub client_code-is_grpc : (n : ℕ) → is_grpc (client_code n) ≡ true
unfolding client_code
client_code-is_grpc n = elim (Option-cases (Dict.get http_to_status_code n)) [
  | inl e ↦ ground (arith, e)
  | inr (c, e) ↦
      let h = get-all_grpc http_to_status_code n c all_grpc-http_to_status_code e in
      ground (arith, e, h)
]

-- A gRPC code that a server answers with arrives at the remote client unchanged exactly if it is in
-- the table and no later gRPC code of the table has the same HTTP code.
pub client_code-arrives :
    (c : GrpcCode)
    → (client_code (http_code (grpc c)) == grpc c) ≡ is_last (grpc c) status_code_to_http
unfolding http_code client_code http_to_status_code Dict.get Dict.has Dict.put invert_from
client_code-arrives grpc_ok = refl
client_code-arrives grpc_cancelled = refl
client_code-arrives grpc_unknown = refl
client_code-arrives grpc_invalid_argument = refl
client_code-arrives grpc_deadline_exceeded = refl
client_code-arrives grpc_not_found = refl
client_code-arrives grpc_already_exists = refl
client_code-arrives grpc_permission_denied = refl
client_code-arrives grpc_resource_exhausted = refl
client_code-arrives grpc_failed_precondition = refl
client_code-arrives grpc_aborted = refl
client_code-arrives grpc_out_of_range = refl
client_code-arrives grpc_unimplemented = refl
client_code-arrives grpc_internal = refl
client_code-arrives grpc_unavailable = refl
client_code-arrives grpc_data_loss = refl
client_code-arrives grpc_unauthenticated = refl

-- An error of the core library is answered with the same HTTP code directly and by way of its gRPC
-- code, exactly if it is no `CONNECTION_ERROR`.
pub http_code-ways :
    (c : CoreCode)
    → (http_code (grpc (caikit_status_code_to_grpc c)) == http_code (core c))
      ≡ not (core c == core core_connection_error)
unfolding http_code caikit_status_code_to_grpc Dict.get
http_code-ways core_not_found = refl
http_code-ways core_invalid_argument = refl
http_code-ways core_connection_error = refl
http_code-ways core_unauthorized = refl
http_code-ways core_forbidden = refl
http_code-ways core_unknown = refl
http_code-ways core_fatal = refl
