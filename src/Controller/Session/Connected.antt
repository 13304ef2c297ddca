-- ===== src/Controller/Session/Connected.antt =====
-- The refresh and the start of the controller give each NexentaStor a resolver.
use nexentastor_csi_driver_b.Base.{
  Text, Map, insert, lookup-insert, has_key, eq_text, eq_text_refl, true, false, Bool, List, [],
  ◌∷◌, ◌≡◌, ◌⊎◌, refl, ap, sym, ◌∙◌, arith, if◌then◌else◌, inl, inr, Bool-cases, Option-cases,
}
use nexentastor_csi_driver_b.Exec.{Outcome, ok, deref, Outcome-cases}
use mathlib.Core.Path.{subst}
use nexentastor_csi_driver_b.Config.{Host, NsData, Shared, refresh}
use nexentastor_csi_driver_b.Config.Reload.Sound.{MakesMaps, refresh-IsSound, refresh-unchanged}
use nexentastor_csi_driver_b.Ns.{Ns}
use nexentastor_csi_driver_b.Process.{Process}
use nexentastor_csi_driver_b.Process.Stays.{Stays, Stays-bind, Stays-outside, Stays-deref}
use nexentastor_csi_driver_b.Controller.Connect.{connect, reconnect, refresh_config}
use nexentastor_csi_driver_b.Controller.Session.{Covers, IsConnected}

module _ {R : Type 0} where
  has_key-insert :
      (k j : Text) (v : R) (m : Map R)
      → has_key j (insert k v m) ≡ (if eq_text k j then true else has_key j m)
  has_key-insert k j v m = ground (arith, lookup-insert k j v m)

  -- No key of the first map is missing in the second one.
  unfoldable pub Grows : Map R → Map R → Type 0
  Grows m n = (j : Text) → has_key j m ≡ true → has_key j n ≡ true

  pub Grows-insert : (k : Text) (v : R) (m n : Map R) → Grows (insert k v m) n → Grows m n
  unfolding Grows
  Grows-insert k v m n g j h = g j (ground (arith, has_key-insert k j v m))

  pub inserted : (k : Text) (v : R) (m n : Map R) → Grows (insert k v m) n → has_key k n ≡ true
  unfolding Grows
  inserted k v m n g = g k (ground (arith, has_key-insert k k v m, eq_text_refl k))

module _ {W P R : Type 0} (ns : Ns W P R) where
  pub connect-Stays : (d : NsData) → Stays {W = W} {R = R} (connect ns d)
  unfolding connect
  connect-Stays d =
      Stays-bind (deref d.insecure_skip_verify) _ (Stays-deref d.insecure_skip_verify)
        (λ b. Stays-outside _)

  -- What a loop over entries that ends well has done.
  Reconnected : List (Text × NsData) → Process W R → Process W R → Type 0
  Reconnected es s t = (t.config ≡ s.config) × Grows s.resolvers t.resolvers × Covers es t.resolvers

  module _ (name : Text) (d : NsData) (es : List (Text × NsData)) (s : Process W R) where
    -- A round that ends well has stored the resolver that it has got.
    reconnect_step :
        (reconnect ns ((name, d) ∷ es) s).0 ≡ ok tt
        → (v : R) × (reconnect ns ((name, d) ∷ es) s
            ≡ reconnect ns es (record (connect ns d s).1 {
              resolvers = insert name v (connect ns d s).1.resolvers;
            }))
    unfolding reconnect
    reconnect_step h = elim (Outcome-cases (connect ns d s).0) [
      | inl (inl (r, e)) ↦ elim (Option-cases r.value) [
        | inl n ↦ ground arith
        | inr (v, m) ↦ elim (Option-cases r.error) [
          | inl n ↦ (v, ground arith)
          | inr (f, n) ↦ ground arith
        ]
      ]
      | inl (inr (x, e)) ↦ ground arith
      | inr e ↦ ground arith
    ]

  reconnect-Reconnected :
      (es : List (Text × NsData)) (s : Process W R)
      → (reconnect ns es s).0 ≡ ok tt
      → Reconnected es s (reconnect ns es s).1
  unfolding Reconnected Grows
  reconnect-Reconnected [] s h = unfold reconnect in (refl, λ j g. g, tt)
  reconnect-Reconnected ((name, d) ∷ es) s h =
      let (v, same) = reconnect_step name d es s h in
      let c = connect ns d s in
      let u : Process W R = record c.1 { resolvers = insert name v c.1.resolvers } in
      let kept = (connect-Stays d).same s in
      let (config, grows, covers) = reconnect-Reconnected es u (ap (λ x. x.0) (sym same) ∙ h) in
      let done : Reconnected ((name, d) ∷ es) s (reconnect ns es u).1 = (
        config ∙ kept.config,
        λ j g. Grows-insert name v c.1.resolvers _ grows j (ap (has_key j) kept.resolvers ∙ g),
        (inserted name v c.1.resolvers _ grows, covers),
      ) in
      subst (λ x. Reconnected ((name, d) ∷ es) s x.1) (sym same) done

module _ {W P R : Type 0} (ns : Ns W P R) (host : Host W) (laws : MakesMaps host) where
  -- What the refresh of the configuration does, before the resolvers.
  abbrev Read : Text → Process W R → Outcome Bool × Shared W
  Read secret s = refresh host secret (record { config = s.config; world = s.world })

  abbrev after_read : Text → Process W R → Process W R
  after_read secret s = record s {
    config = (Read secret s).1.config;
    world = (Read secret s).1.world;
  }

  -- A refresh that succeeds either reads nothing, or connects every entry that it has read.
  refresh_config-cases :
      (secret : Text) (s : Process W R)
      → (refresh_config ns host secret s).0 ≡ ok tt
      → (((Read secret s).0 ≡ ok false)
          × (refresh_config ns host secret s ≡ (ok tt, after_read secret s)))
        ⊎ (((Read secret s).0 ≡ ok true)
            × (refresh_config ns host secret s
                ≡ reconnect ns (Read secret s).1.config.ns_map (after_read secret s)))
  unfolding refresh_config
  refresh_config-cases secret s h = elim (Outcome-cases (Read secret s).0) [
    | inl (inl (b, e)) ↦ elim (Bool-cases b) [
      | inl t ↦ inr (ground arith, ground arith)
      | inr f ↦ inl (ground arith, ground arith)
    ]
    | inl (inr (x, e)) ↦ ground arith
    | inr e ↦ ground arith
  ]

  -- A refresh that succeeds, whether it has read the configuration or not, leaves a resolver for each
  -- NexentaStor of it.
  pub refresh_config-IsConnected :
      (secret : Text) (s : Process W R)
      → IsConnected s
      → (refresh_config ns host secret s).0 ≡ ok tt
      → IsConnected (refresh_config ns host secret s).1
  unfolding Reconnected
  refresh_config-IsConnected secret s safe h =
      let c : Shared W = record { config = s.config; world = s.world } in
      elim (refresh_config-cases secret s h) [
        | inl (e, same) ↦
            let kept = refresh-unchanged host laws secret c e in
            let done : IsConnected (after_read secret s) = record {
              sound = rw kept safe.sound;
              covered = rw kept safe.covered;
            } in
            rw same done
        | inr (e, same) ↦
            let sound = refresh-IsSound host laws secret c true safe.sound e in
            let (config, grows, covers) =
              reconnect-Reconnected ns (Read secret s).1.config.ns_map (after_read secret s)
                (ap (λ x. x.0) (sym same) ∙ h) in
            let done : IsConnected
                (reconnect ns (Read secret s).1.config.ns_map (after_read secret s)).1 =
              record { sound = rw config sound; covered = rw config covers } in
            rw same done
      ]
