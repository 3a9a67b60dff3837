-- ===== src/Grpc.antt =====
-- internal/grpcserver: the gRPC server over the interface StackService. A pointer that may be nil is
-- an Option; a timestamp is the instant it stands for; the values of enumerations and messages are
-- those of api/proto/stack/v1. The handlers and the interceptor are in the modules below.
pub mod Wire
pub mod Server
pub mod Auth
pub mod Ids
pub mod Codes
use container_provisioner_k.Base.{ℕ, String}
use container_provisioner_k.Errors.{Error}

-- google.golang.org/grpc/codes, those that the program names; `numbered` is any other.
pub data Code : Type 0 where
  invalid_argument not_found unavailable internal unauthenticated : Code
  numbered : ℕ → Code

pub record GrpcError : Type 0 where
  pub code : Code
  pub message : String

-- status.FromContextError of google.golang.org/grpc, on an error of a context
pub record GrpcLibrary : Type 0 where
  pub from_context_error : Error → GrpcError

pub data Reply {ℓ} (A : Type ℓ) : Type ℓ where
  reply : A → Reply A
  refused : GrpcError → Reply A

-- status.Error(code, message) as the result of a handler
abbrev pub status_error {ℓ} : {A : Type ℓ} → Code → String → Reply A
status_error code message = refused (record { code = code; message = message })

abbrev pub Handler : Type 0 → Type 0 → Type 0
Handler W A = W → Reply A × W
