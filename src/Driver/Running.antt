-- ===== src/Driver/Running.antt =====
-- What holds once the driver serves.
use nexentastor_csi_driver_b.Base.{Text, bytes, eq_text, eq_text_iff, not, some, ◌≡◌, ◌∙◌, arith}
use nexentastor_csi_driver_b.Exec.{errorf, ok, Tried, got, failed, attempt}
use nexentastor_csi_driver_b.Exec.Steps.{bind_ok, bind_at, guard_ok, or_fail_ok, or_missing_ok}
use nexentastor_csi_driver_b.Config.Reload.Sound.{IsSound}
use nexentastor_csi_driver_b.Ns.{Ns}
use nexentastor_csi_driver_b.Process.{Process, outside}
use nexentastor_csi_driver_b.Process.Stays.{
  Stays, Stays-bind, Stays-pure, Stays-fail, Stays-outside, Stays-attempt, Stays-if, Stays-guard,
  Stays-or_fail, Stays-or_missing,
}
use nexentastor_csi_driver_b.Driver.Ready.{IsReady, make_servers-IsReady}
use nexentastor_csi_driver_b.Driver.{
  Driver, Net, Url, socket_of, services_of, or_gone, open_socket, make_servers, run,
}

module _ {W P R : Type 0} (ns : Ns W P R) where
  or_gone-Stays : (net : Net W) (t : Tried (Unit {0})) → Stays {R = R} (or_gone ns net t)
  or_gone-Stays net (got u) = Stays-pure tt
  or_gone-Stays net (failed e) = Stays-if (net.is_not_exist e) _ _ (Stays-pure tt) (Stays-fail _ _)

  open_socket-Stays : (net : Net W) (endpoint : Text) → Stays {R = R} (open_socket ns net endpoint)
  unfolding open_socket
  open_socket-Stays net endpoint =
      Stays-bind _ _
        (Stays-or_missing (errorf "Failed to parse endpoint: %s") (net.parse_url endpoint))
        (λ url.
          Stays-bind _ _
            (Stays-guard (not (eq_text url.scheme (bytes "unix")))
              (errorf "Only unix domain sockets are supported"))
            (λ _.
              Stays-bind _ _ (Stays-attempt _ (Stays-outside (net.remove (socket_of url)))) (λ t.
                Stays-bind _ _ (or_gone-Stays net t) (λ _.
                  Stays-or_fail _ _ (Stays-outside (net.listen url.scheme (socket_of url)))))))

  -- A socket that has been opened is a Unix socket, at which something listens.
  open_socket-listens :
      (net : Net W) (endpoint : Text) (s : Process W R)
      → (open_socket ns net endpoint s).0 ≡ ok tt
      → (url : Url) × (w : W) × (net.parse_url endpoint ≡ some url)
        × (url.scheme ≡ bytes "unix")
        × ((net.listen (bytes "unix") (socket_of url) w).0 ≡ ok tt)
  unfolding open_socket
  open_socket-listens net endpoint s h =
      let (url, parsed, h1) = or_missing_ok (net.parse_url endpoint) _ _ s tt h in
      let (unix, h2) = guard_ok (not (eq_text url.scheme (bytes "unix"))) _ _ s tt h1 in
      let remove = attempt (outside (net.remove (socket_of url))) in
      let (t, e, h3) = bind_ok remove _ s tt h2 in
      let (u, f, h4) = bind_ok (or_gone ns net t) _ (remove s).1 tt h3 in
      let v = (or_gone ns net t (remove s).1).1 in
      let scheme : url.scheme ≡ bytes "unix" =
        (eq_text_iff url.scheme (bytes "unix")).0 (ground arith) in
      let (listens, _) =
        or_fail_ok (λ e. errorf "Failed to create socket listener: %s")
          (outside {R = R} (net.listen url.scheme (socket_of url))) v tt h4 in
      let there : (net.listen url.scheme (socket_of url) v.world).0 ≡ ok tt = listens in
      (url, v.world, parsed, scheme, rw scheme at there)

  -- Once its socket is open and its servers are made, `Run` hands the services of its role over to
  -- gRPC. Something listens then at the path of a Unix socket that the endpoint names, the
  -- configuration is as sound as before, and the controller and the node, as far as they belong to the
  -- role, have a resolver for each NexentaStor of it, where that of the node may be a nil pointer.
  pub run_serves :
      (net : Net W) (d : Driver) (s : Process W R)
      → IsSound s.config
      → (open_socket ns net d.endpoint s).0 ≡ ok tt
      → (make_servers ns d.role (open_socket ns net d.endpoint s).1).0 ≡ ok tt
      → (u : Process W R) × (run ns net d s ≡ outside (net.serve (services_of d.role)) u)
        × IsReady ns d.role u
        × ((url : Url) × (w : W) × (net.parse_url d.endpoint ≡ some url)
            × (url.scheme ≡ bytes "unix")
            × ((net.listen (bytes "unix") (socket_of url) w).0 ≡ ok tt))
  unfolding run
  run_serves net d s sound h k =
      let opened = open_socket ns net d.endpoint s in
      let kept = (open_socket-Stays net d.endpoint).same s in
      (
        (make_servers ns d.role opened.1).1,
        bind_at (open_socket ns net d.endpoint) _ s tt h
            ∙ bind_at (make_servers ns d.role) _ opened.1 tt k,
        make_servers-IsReady ns d.role opened.1 (rw kept.config sound) k,
        open_socket-listens net d.endpoint s h,
      )
