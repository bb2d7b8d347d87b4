-- ===== src/Greetd/Types.antt =====
-- The types of crates/fomalhaut-greetd/src/{state,error,client,transport}.rs, and of the requests
-- and responses of the crate greetd_ipc the constructors that the client builds and matches on.
use fomalhaut.Common.{String, Option, List, Result}
use fomalhaut.Core.Types.{Text, CoreError, BackendError, protocol, service}

pub data GreeterState : Type 0 where
  disconnected idle authenticating waiting_for_prompt authenticated : GreeterState
  starting_session started cancelling failed : GreeterState

-- What the library's own errors carry is left out.
pub data TransportError : Type 0 where
  connect codec : TransportError
  unavailable : String → TransportError

pub data ServerErrorKind : Type 0 where
  authentication general : ServerErrorKind

pub data GreetdError : Type 0 where
  core : CoreError → GreetdError
  transport : TransportError → GreetdError
  unexpected_response : String → String → GreetdError
  server : ServerErrorKind → GreetdError
  missing_identity : GreetdError

unfoldable pub into_backend_error : GreetdError → BackendError
into_backend_error (core e) = BackendError.core e
into_backend_error (transport e) = BackendError.unavailable
into_backend_error (unexpected_response operation response) = protocol
into_backend_error missing_identity = protocol
into_backend_error (server kind) = service

pub data Operation : Type 0 where
  authenticate start_session cancel cleanup_after_authentication_failure : Operation

unfoldable pub operation_name : Operation → String
operation_name authenticate = "authenticate"
operation_name start_session = "start session"
operation_name cancel = "cancel session"
operation_name cleanup_after_authentication_failure = "clean up after authentication failure"

-- greetd_ipc.
pub data Request : Type 0 where
  create_session : Text → Request
  post_auth_message_response : Option Text → Request
  start_session : List Text → List Text → Request
  cancel_session : Request

pub data ErrorType : Type 0 where
  auth_error error : ErrorType

pub data AuthMessageType : Type 0 where
  visible secret info error : AuthMessageType

pub data Response : Type 0 where
  success : Response
  error : ErrorType → Text → Response
  auth_message : AuthMessageType → Text → Response

-- What `Transport::exchange` returns.
abbrev pub Reply : Type 0
Reply = Result Response TransportError
