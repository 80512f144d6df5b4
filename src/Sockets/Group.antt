-- ===== src/Sockets/Group.antt =====
-- The template SocketGroup of socket_group.h over its implementation, which the constructor makes.
use cache_system_of_lease_me.Base.{ℕ, Option, none, some, ◌==◌, if◌then◌else◌}
use cache_system_of_lease_me.Outcome.{error_ill_usage, error_sys_routine, M, pure, throw, zoom}
use cache_system_of_lease_me.Sockets.{NetlinkGroup, new_group}
use cache_system_of_lease_me.Sockets

-- `impl_`, `none` for a null pointer.
abbrev pub SocketGroup : Type 0
SocketGroup = Option NetlinkGroup

abbrev pub with_impl : NetlinkGroup → SocketGroup → SocketGroup
with_impl g impl = some g

-- The constructor.
abbrev pub new_socket_group : SocketGroup
new_socket_group = some new_group

-- A call of the implementation.
abbrev on_impl : {A : Type 0} → M NetlinkGroup A → M SocketGroup A → M SocketGroup A
on_impl call otherwise none = otherwise none
on_impl call otherwise (some g) = zoom (λ _. g) with_impl call (some g)

unfoldable pub register_socket : ℕ → M SocketGroup (Unit {0})
unfolding Sockets.register_socket
register_socket socket impl =
    if socket == 0
    then throw error_sys_routine impl
    else on_impl (Sockets.register_socket socket) (throw error_ill_usage) impl

unfoldable pub unregister_socket : ℕ → M SocketGroup (Unit {0})
unfolding Sockets.unregister_socket
unregister_socket socket impl =
    if socket == 0
    then throw error_sys_routine impl
    else on_impl (Sockets.unregister_socket socket) (pure tt) impl

-- `poll` is what the implementation's listen does.
unfoldable pub listen : M NetlinkGroup (Unit {0}) → M SocketGroup (Unit {0})
listen poll impl = on_impl poll (throw error_ill_usage) impl
