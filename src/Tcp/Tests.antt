-- ===== src/Tcp/Tests.antt =====
-- A connect request that resolves its host, and the theorem about it.
use uni_event.Base.{true, none, refl}
use uni_event.Tcp.{
  TcpConnect, create, exec, finalize_connect, connect_to, found, on_resolve, handle_event, finish,
}
use uni_event.Tcp.Once.{Reach, IsOnce, Reach-IsOnce}

resolving : TcpConnect
unfolding exec create finalize_connect connect_to
resolving = exec none (create true true true none)

connecting : TcpConnect
unfolding on_resolve resolving
connecting = on_resolve (found 5 none) resolving

ended : TcpConnect
unfolding handle_event finish connecting
ended = handle_event none connecting

ended-Reach : Reach ended
unfolding ended connecting resolving
ended-Reach =
    Reach.connects none refl
      (Reach.resolved (found 5 none) refl (Reach.started true true true none none))

Reach-IsOnce_example : IsOnce ended
Reach-IsOnce_example = Reach-IsOnce ended-Reach
