-- ===== src/Api/Access.antt =====
-- The bearer-token check, the CORS allowlist and the error table of services/api/src/lib.rs.
pub mod Token
use Prim.Native.Nat.{bit_or, bit_xor}
use veyora.Prelude.{
  ℕ, Bytes, codes, bytes_eq, Bool, true, false, not, ◌||◌, Option, none, some, List, [], ◌∷◌, ◌==◌,
  if◌then◌else◌, length, any,
}
use veyora.Storage.Port.{conflict, not_found, invalid_record, store_unavailable}
use veyora.Api.Shape.{ApiError, store, conflict_at_revision, route_mismatch, bad_body, bad_query}

-- The fold of the differences, from the left; `zip` stops at the shorter list.
unfoldable pub differences : ℕ → Bytes → Bytes → ℕ
differences diff [] b = diff
differences diff (x ∷ a) [] = diff
differences diff (x ∷ a) (y ∷ b) = differences (bit_or diff (bit_xor x y)) a b

unfoldable pub constant_time_eq : Bytes → Bytes → Bool
constant_time_eq a b = if not (length a == length b) then false else differences 0 a b == 0

pub data AuthMode : Type 0 where
  auth_disabled : AuthMode
  bearer_token : Bytes → AuthMode

-- `strip_prefix`
abbrev pub strip_prefix : Bytes → Bytes → Option Bytes
strip_prefix [] text = some text
strip_prefix (p ∷ ps) [] = none
strip_prefix (p ∷ ps) (x ∷ xs) = let rest = strip_prefix ps xs in if p == x then rest else none

-- Whether the middleware passes the request on, from its path, whether its method is OPTIONS, and its
-- Authorization header as text.
unfoldable pub auth_middleware : AuthMode → Bytes → Bool → Option Bytes → Bool
auth_middleware auth_disabled path options header = true
auth_middleware (bearer_token expected) path options header =
    if bytes_eq path (codes "/healthz") || bytes_eq path (codes "/readyz") || options
    then true
    else elim (strip_prefix (codes "Bearer ") (elim header [ none ↦ [] | some h ↦ h ])) [
      | none ↦ false
      | some token ↦ constant_time_eq token expected
    ]

unfoldable pub cors_allow_origin : List Bytes → Option Bytes → Option Bytes
cors_allow_origin [] request_origin = some (codes "*")
cors_allow_origin (o ∷ origins) none = none
cors_allow_origin (o ∷ origins) (some request) =
    if any (λ allowed. bytes_eq allowed request) (o ∷ origins) then some request else none

pub data RetryClass : Type 0 where
  immediate delayed never : RetryClass

unfoldable pub retry_class : Bytes → RetryClass
retry_class code =
    if bytes_eq code (codes "PM-STORE-UNAVAILABLE")
    then immediate
    else if bytes_eq code (codes "PM-API-RATE-LIMITED")
    then delayed
    else never

unfoldable pub status_and_code : ApiError → ℕ × Bytes
status_and_code (store not_found) = (404, codes "PM-STORE-NOT-FOUND")
status_and_code (store conflict) = (409, codes "PM-STORE-CONFLICT")
status_and_code (conflict_at_revision n) = (409, codes "PM-STORE-CONFLICT")
status_and_code (store invalid_record) = (400, codes "PM-STORE-INVALID-RECORD")
status_and_code (store store_unavailable) = (503, codes "PM-STORE-UNAVAILABLE")
status_and_code route_mismatch = (400, codes "PM-API-ROUTE-MISMATCH")
status_and_code bad_body = (400, codes "PM-API-BAD-BODY")
status_and_code bad_query = (400, codes "PM-API-BAD-QUERY")
