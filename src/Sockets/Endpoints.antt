-- ===== src/Sockets/Endpoints.antt =====
-- The templates MessageServer (message_server.h) and MessageClient (message_client.h): a socket with
-- an implementation, to which it forwards.
use cache_system_of_lease_me.Base.{ℕ, Option, none, some}
use cache_system_of_lease_me.Outcome.{error_ill_usage, M, done, throw, zoom}

-- `impl_`, `none` for a null pointer.
abbrev pub Endpoint : Type 0 → Type 0
Endpoint S = Option S

module _ {S : Type 0} where
  -- set_message_impl: the implementation is bound to the endpoint's own socket, `this`.
  unfoldable pub set_message_impl : (ℕ → S → S) → ℕ → Option S → M (Endpoint S) (Unit {0})
  set_message_impl bind_socket this none old = done tt none
  set_message_impl bind_socket this (some impl) old = done tt (some (bind_socket this impl))

  -- Every other call goes to the implementation.
  unfoldable pub forward : {A : Type 0} → M S A → M (Endpoint S) A
  forward call none = throw error_ill_usage none
  forward call (some impl) = zoom (λ _. impl) (λ s _. some s) call (some impl)
