-- ===== src/Driver/Ready.antt =====
-- The servers that `Run` makes.
use nexentastor_csi_driver_b.Base.{
  Text, Map, insert, Bool, true, false, Option, List, [], ◌∷◌, ◌≡◌, refl, sym, ap, ◌∙◌, inl, inr,
  arith, if◌then◌else◌, Option-cases,
}
use nexentastor_csi_driver_b.Exec.{Exec, Error, errorf, ok, pure, or_fail, Outcome-cases}
use nexentastor_csi_driver_b.Exec.Steps.{bind_ok, bind_at, or_fail_ok}
use nexentastor_csi_driver_b.Role.{Role, is_controller, is_node}
use nexentastor_csi_driver_b.Config.{NsData}
use nexentastor_csi_driver_b.Config.Reload.Sound.{IsSound}
use nexentastor_csi_driver_b.Ns.{Ns}
use nexentastor_csi_driver_b.Process.{Process}
use nexentastor_csi_driver_b.Process.Stays.{Stays, Stays-bind, Stays-pure}
use nexentastor_csi_driver_b.Controller.Connect.{connect, new_controller_server}
use nexentastor_csi_driver_b.Controller.Session.{Covers}
use nexentastor_csi_driver_b.Controller.Session.Connect.{failed_with-Stays}
use nexentastor_csi_driver_b.Controller.Session.Connected.{
  connect-Stays, Grows, Grows-insert, inserted,
}
use nexentastor_csi_driver_b.Controller.Session.Started.{new_controller_server-IsConnected}
use nexentastor_csi_driver_b.Node.Connect.{new_node_resolvers, new_node_server}
use nexentastor_csi_driver_b.Driver.{make_servers}

module _ {W P R : Type 0} (ns : Ns W P R) where
  node_resolvers-Stays :
      (es : List (Text × NsData)) (made : Map (Option R))
      → Stays {R = R} (new_node_resolvers ns es made)
  unfolding new_node_resolvers
  node_resolvers-Stays [] made = Stays-pure made
  node_resolvers-Stays ((name, d) ∷ es) made = Stays-bind _ _ (connect-Stays ns d) (λ r.
      Stays-bind _ _ (failed_with-Stays r.error (errorf "Cannot create NexentaStor resolver: %s"))
        (λ _. node_resolvers-Stays es _))

  module _ (name : Text) (d : NsData) (es : List (Text × NsData)) (made m : Map (Option R))
      (s : Process W R) where
    node_resolvers_step :
        (new_node_resolvers ns ((name, d) ∷ es) made s).0 ≡ ok m
        → (v : Option R) × (new_node_resolvers ns ((name, d) ∷ es) made s
            ≡ new_node_resolvers ns es (insert name v made) (connect ns d s).1)
    unfolding new_node_resolvers
    node_resolvers_step h = elim (Outcome-cases (connect ns d s).0) [
      | inl (inl (r, e)) ↦ elim (Option-cases r.error) [
        | inl n ↦ (r.value, ground arith)
        | inr (f, n) ↦ ground arith
      ]
      | inl (inr (x, e)) ↦ ground arith
      | inr e ↦ ground arith
    ]

  node_resolvers-Covers :
      (es : List (Text × NsData)) (made m : Map (Option R)) (s : Process W R)
      → (new_node_resolvers ns es made s).0 ≡ ok m
      → Grows made m × Covers es m
  unfolding Grows
  node_resolvers-Covers [] made m s h = unfold new_node_resolvers in (λ j g. ground arith, tt)
  node_resolvers-Covers ((name, d) ∷ es) made m s h =
      let (v, same) = node_resolvers_step name d es made m s h in
      let (grows, covers) =
        node_resolvers-Covers es (insert name v made) m (connect ns d s).1
          (ap (λ x. x.0) (sym same) ∙ h) in
      (Grows-insert name v made m grows, (inserted name v made m grows, covers))

  -- The node starts with an entry of its map for each NexentaStor, and the controller is left alone.
  node_server-Covers :
      (s : Process W R)
      → (new_node_server ns s).0 ≡ ok tt
      → ((new_node_server ns s).1.config ≡ s.config)
        × ((new_node_server ns s).1.resolvers ≡ s.resolvers)
        × Covers s.config.ns_map (new_node_server ns s).1.node_resolvers
  unfolding new_node_server
  node_server-Covers s h =
      let made = new_node_resolvers ns s.config.ns_map [] s in
      let same = (node_resolvers-Stays s.config.ns_map []).same s in
      elim (Outcome-cases made.0) [
        | inl (inl (m, e)) ↦
            let next : (new_node_server ns s).1 ≡ record made.1 { node_resolvers = m } =
              ground arith in
            rw next
              (same.config, same.resolvers, (node_resolvers-Covers s.config.ns_map [] m s e).1)
        | inl (inr (x, e)) ↦ ground arith
        | inr e ↦ ground arith
      ]

  -- The configuration is sound, and the server of each role has a resolver, or a pointer to one, for
  -- each NexentaStor of it.
  pub record IsReady (role : Role) (t : Process W R) : Type 0 where
    pub sound : IsSound t.config
    pub controls : is_controller role ≡ true → Covers t.config.ns_map t.resolvers
    pub serves_node : is_node role ≡ true → Covers t.config.ns_map t.node_resolvers

  module _ (f : Error → Error) where
    abbrev controller_part : Bool → Exec (Process W R) Unit
    controller_part b = if b then or_fail f (new_controller_server ns) else pure tt

    controller_part-Covers :
        (b : Bool) (s : Process W R)
        → IsSound s.config
        → (controller_part b s).0 ≡ ok tt
        → IsSound (controller_part b s).1.config
          × (b ≡ true
              → Covers (controller_part b s).1.config.ns_map (controller_part b s).1.resolvers)
    controller_part-Covers true s sound h =
        let (started, same) = or_fail_ok f (new_controller_server ns) s tt h in
        let safe = new_controller_server-IsConnected ns s sound started in
        rw same (safe.sound, λ _. safe.covered)
    controller_part-Covers false s sound h = (sound, λ e. cc)

    abbrev node_part : Bool → Exec (Process W R) Unit
    node_part b = if b then or_fail f (new_node_server ns) else pure tt

    node_part-Covers :
        (b : Bool) (s : Process W R)
        → (node_part b s).0 ≡ ok tt
        → ((node_part b s).1.config ≡ s.config)
          × ((node_part b s).1.resolvers ≡ s.resolvers)
          × (b ≡ true → Covers s.config.ns_map (node_part b s).1.node_resolvers)
    node_part-Covers true s h =
        let (started, same) = or_fail_ok f (new_node_server ns) s tt h in
        let (config, resolvers, covers) = node_server-Covers s started in
        rw same (config, resolvers, λ _. covers)
    node_part-Covers false s h = (refl, refl, λ e. cc)

  -- The servers of a role that have been made.
  pub make_servers-IsReady :
      (role : Role) (s : Process W R)
      → IsSound s.config
      → (make_servers ns role s).0 ≡ ok tt
      → IsReady role (make_servers ns role s).1
  unfolding make_servers
  make_servers-IsReady role s sound h =
      let first =
        controller_part (λ e. errorf "Failed to create ControllerServer: %s")
          (is_controller role) in
      let last = node_part (λ e. errorf "Failed to create NodeServer: %s") (is_node role) in
      let (u, e, h1) = bind_ok first _ s tt h in
      let (safe, controls) =
        controller_part-Covers (λ e. errorf "Failed to create ControllerServer: %s")
          (is_controller role) s sound e in
      let (config, resolvers, serves) =
        node_part-Covers (λ e. errorf "Failed to create NodeServer: %s") (is_node role) (first s).1
          h1 in
      let done : IsReady role (last (first s).1).1 = record {
        sound = rw config safe;
        controls = rw config (rw resolvers controls);
        serves_node = rw config serves;
      } in
      rw (bind_at first (λ _. last) s u e) done
