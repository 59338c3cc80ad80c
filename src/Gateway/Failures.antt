-- ===== src/Gateway/Failures.antt =====
-- The failures of gateway.rs and how they are classified. A `Box<dyn Error>` is one of the three typed
-- errors that the source asks for by `downcast_ref`, or an error of another type.
use connectors.Base.{ℕ, Bool, true, false, Option, none, some, if◌then◌else◌}
use connectors.Control.Handle.{RelayPublisherControlError}

pub data IngressFailure : Type 0 where
  transport authority protocol identity generation credential recovery_budget : IngressFailure

-- `ProxyConnectError` of proxy.rs.
pub data ProxyConnectError : Type 0 where
  authorization rejected proxy_tls_handshake relay_tls_handshake transport : ProxyConnectError
  connect_rejected : ℕ → ProxyConnectError

pub data IngressError : Type 0 where
  ingress : IngressFailure → IngressError
  proxy : ProxyConnectError → IngressError
  control : RelayPublisherControlError → IngressError
  other : IngressError

-- `tungstenite::Error`, as far as `classify_socket_error` and the callers tell it apart.
pub data SocketError : Type 0 where
  would_block timed_out other_io connection_closed : SocketError
  reset_without_closing_handshake other_socket_error : SocketError

pub data CloseCode : Type 0 where
  policy normal away restart again other_code : CloseCode

pub data Retryability : Type 0 where
  retryable never : Retryability

unfoldable pub classify_socket_error : SocketError → IngressFailure
classify_socket_error would_block = IngressFailure.transport
classify_socket_error timed_out = IngressFailure.transport
classify_socket_error other_io = IngressFailure.transport
classify_socket_error connection_closed = IngressFailure.transport
classify_socket_error reset_without_closing_handshake = IngressFailure.transport
classify_socket_error other_socket_error = protocol

-- The failure for a peer's close frame, in `poll_stream`.
unfoldable pub classify_close : Option CloseCode → IngressFailure
classify_close none = IngressFailure.transport
classify_close (some policy) = authority
classify_close (some normal) = IngressFailure.transport
classify_close (some away) = IngressFailure.transport
classify_close (some restart) = IngressFailure.transport
classify_close (some again) = IngressFailure.transport
classify_close (some other_code) = protocol

unfoldable pub recoverable : IngressError → Bool
recoverable (ingress IngressFailure.transport) = true
recoverable (ingress failure) = false
recoverable (proxy ProxyConnectError.transport) = true
recoverable (proxy failure) = false
recoverable (control failure) = false
recoverable other = true

unfoldable pub credential_changed : IngressError → Bool
credential_changed (ingress credential) = true
credential_changed error = false

unfoldable pub retryability : IngressError → Retryability
unfolding recoverable
retryability error = if recoverable error then retryable else never
