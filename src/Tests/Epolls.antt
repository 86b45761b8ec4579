-- ===== src/Tests/Epolls.antt =====
-- The theorems on the loop of epoll.rs at concrete inputs.
use rust_tcp_server.Base.{◌≡◌, refl, true, false, some}
use rust_tcp_server.Base.Assoc.{find_key}
use rust_tcp_server.Server.Epoll.Edge.{epoll_once-run_once}
use rust_tcp_server.Server.Epoll.Watch.{triggered, epoll_once-Keeps}
use rust_tcp_server.Server.Epoll.{epoll_once}
use rust_tcp_server.Server.Reactor.Run.{Keeps}
use rust_tcp_server.Server.Reactor.Watch.{Laws}
use rust_tcp_server.Server.Reactor.{level, edge, run_once}
use rust_tcp_server.Tests.Reactors.{start, ready}
use rust_tcp_server.Tests.System.{system, chosen_laws}

epoll_once-run_once_example :
    epoll_once (system 1) edge true 9 start (some ready) ≡ run_once (system 1) 9 start (some ready)
epoll_once-run_once_example = epoll_once-run_once (system 1) 9 start (some ready)

epoll_laws : Laws (triggered (system 1) level false)
epoll_laws = chosen_laws 1 (λ _. level)

epoll_start-Keeps : Keeps (triggered (system 1) level false) epoll_laws start
unfolding find_key
epoll_start-Keeps = (λ q. tt, refl)

epoll_once-Keeps_example :
    Keeps
      (triggered (system 1) level false)
      epoll_laws
      (epoll_once (system 1) level false 9 start (some ready))
epoll_once-Keeps_example =
    epoll_once-Keeps (system 1) level false epoll_laws 9 start (some ready) epoll_start-Keeps
