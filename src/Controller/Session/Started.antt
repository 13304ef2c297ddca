-- ===== src/Controller/Session/Started.antt =====
-- The start of the controller gives each NexentaStor a resolver.
use nexentastor_csi_driver_b.Base.{
  Text, Map, insert, List, [], ◌∷◌, ◌≡◌, refl, sym, ap, ◌∙◌, inl, inr, arith, Option-cases,
}
use nexentastor_csi_driver_b.Exec.{ok, Outcome-cases}
use nexentastor_csi_driver_b.Config.{NsData}
use nexentastor_csi_driver_b.Config.Reload.Sound.{IsSound}
use nexentastor_csi_driver_b.Ns.{Ns}
use nexentastor_csi_driver_b.Process.{Process}
use nexentastor_csi_driver_b.Controller.Connect.{connect, new_resolvers, new_controller_server}
use nexentastor_csi_driver_b.Controller.Session.{Covers, IsConnected}
use nexentastor_csi_driver_b.Controller.Session.Connected.{
  Grows, Grows-insert, inserted, connect-Stays,
}

module _ {W P R : Type 0} (ns : Ns W P R) where
  module _ (name : Text) (d : NsData) (es : List (Text × NsData)) (made m : Map R)
      (s : Process W R) where
    new_resolvers_step :
        (new_resolvers ns ((name, d) ∷ es) made s).0 ≡ ok m
        → (v : R) × (new_resolvers ns ((name, d) ∷ es) made s
            ≡ new_resolvers ns es (insert name v made) (connect ns d s).1)
    unfolding new_resolvers
    new_resolvers_step h = elim (Outcome-cases (connect ns d s).0) [
      | inl (inl (r, e)) ↦ elim (Option-cases r.error) [
        | inl n ↦ elim (Option-cases r.value) [
          | inl k ↦ ground arith
          | inr (v, k) ↦ (v, ground arith)
        ]
        | inr (f, n) ↦ ground arith
      ]
      | inl (inr (x, e)) ↦ ground arith
      | inr e ↦ ground arith
    ]

  new_resolvers-Covers :
      (es : List (Text × NsData)) (made m : Map R) (s : Process W R)
      → (new_resolvers ns es made s).0 ≡ ok m
      → Grows made m × Covers es m × ((new_resolvers ns es made s).1.config ≡ s.config)
  unfolding Grows
  new_resolvers-Covers [] made m s h = unfold new_resolvers in (λ j g. ground arith, tt, refl)
  new_resolvers-Covers ((name, d) ∷ es) made m s h =
      let (v, same) = new_resolvers_step name d es made m s h in
      let (grows, covers, config) =
        new_resolvers-Covers es (insert name v made) m (connect ns d s).1
          (ap (λ x. x.0) (sym same) ∙ h) in
      (
        Grows-insert name v made m grows,
        (inserted name v made m grows, covers),
        ap (λ x. x.1.config) same ∙ (config ∙ ((connect-Stays ns d).same s).config),
      )

  -- The controller starts with a resolver for each NexentaStor of its configuration.
  pub new_controller_server-IsConnected :
      (s : Process W R)
      → IsSound s.config
      → (new_controller_server ns s).0 ≡ ok tt
      → IsConnected (new_controller_server ns s).1
  unfolding new_controller_server
  new_controller_server-IsConnected s sound h =
      let made = new_resolvers ns s.config.ns_map [] s in
      elim (Outcome-cases made.0) [
        | inl (inl (m, e)) ↦
            let (grows, covers, config) = new_resolvers-Covers s.config.ns_map [] m s e in
            let done : IsConnected (record made.1 { resolvers = m }) = record {
              sound = rw config sound;
              covered = rw config covers;
            } in
            let same : (new_controller_server ns s).1 ≡ record made.1 { resolvers = m } =
              ground arith in
            rw same done
        | inl (inr (x, e)) ↦ ground arith
        | inr e ↦ ground arith
      ]
