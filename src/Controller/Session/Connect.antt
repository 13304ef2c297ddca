-- ===== src/Controller/Session/Connect.antt =====
-- `resolveNS` changes nothing of the process.
use nexentastor_csi_driver_b.Base.{
  Text, eq_text, Bool, true, false, Option, none, some, List, [], ◌∷◌, is_empty, value_or, lookup,
  not,
}
use nexentastor_csi_driver_b.Exec.{
  Exec, Error, Foreign, guard, status, failed_precondition, fail, foreign, pure, gets,
}
use nexentastor_csi_driver_b.Ns.{Ns}
use nexentastor_csi_driver_b.Process.{Process, ns_data, outside}
use nexentastor_csi_driver_b.Process.Stays.{
  Stays, stays, Stays-bind, Stays-gets, Stays-outside, Stays-if, Stays-guard, Stays-or_fail,
}
use nexentastor_csi_driver_b.Controller.Connect.{
  ResolveParams, ResolveResponse, resolve_error, group_or_default, give_up, failed_with,
  resolve_named, found, search_all, search_zone, resolve_no_zone, resolve_with_zone, resolve_ns,
}

module _ {W R : Type 0} where
  give_up-Stays : (A : Type 0) (e : Option Foreign) → Stays {W = W} {R = R} {A = A} (give_up e)
  unfolding give_up
  give_up-Stays A none = search stays
  give_up-Stays A (some f) = search stays

  pub failed_with-Stays : (o : Option Foreign) (e : Error) → Stays {W = W} {R = R} (failed_with o e)
  failed_with-Stays none e = search stays
  failed_with-Stays (some f) e = search stays

  answer-Stays :
      {A : Type 0} (a : A) (o : Option Foreign)
      → Stays {W = W} {R = R} (elim o [ some f ↦ fail (foreign f) | none ↦ pure a ])
  answer-Stays a none = search stays
  answer-Stays a (some f) = search stays

module _ {W P R : Type 0} (ns : Ns W P R) where
  resolve_named-Stays : (name group : Text) → Stays (resolve_named ns name group)
  unfolding resolve_named
  resolve_named-Stays name group =
      Stays-bind (gets (λ s. value_or ns.zero_resolver (lookup name s.resolvers))) _ (Stays-gets _)
        (λ r. Stays-bind (outside (ns.resolve_from_vg r group)) _ (Stays-outside _) (λ a.
          answer-Stays (record { volume_group = group; ns_provider = a.value; config_name = name })
            a.error))

  found-Stays : (name group : Text) (p : P) (e : Option Foreign) → Stays (found ns name group p e)
  found-Stays name group p none = search stays
  found-Stays name group p (some f) = search stays

  -- What a search does with the answer for one entry.
  all_end-Stays :
      (name group : Text) (o : Option P) (e : Option Foreign)
      (rest : Exec (Process W R) (ResolveResponse P))
      → Stays rest
      → Stays (elim o [ some p ↦ found ns name group p e | none ↦ rest ])
  all_end-Stays name group none e rest h = h
  all_end-Stays name group (some p) e rest h = found-Stays name group p e

  search_all-Stays :
      (group : Text) (resolvers : List (Text × R)) (e : Option Foreign)
      → Stays (search_all ns group resolvers e)
  unfolding search_all
  search_all-Stays group [] e = give_up-Stays (ResolveResponse P) e
  search_all-Stays group ((name, r) ∷ rs) e =
      Stays-bind (gets (ns_data name)) _ (Stays-gets _) (λ d.
        Stays-bind (outside (ns.resolve_from_vg r (group_or_default group d))) _ (Stays-outside _)
          (λ a.
            all_end-Stays name (group_or_default group d) a.value a.error _
              (search_all-Stays group rs a.error)))

  zone_end-Stays :
      (b : Bool) (m n : Exec (Process W R) (ResolveResponse P))
      → Stays m
      → Stays n
      → Stays (elim b [ false ↦ m | true ↦ n ])
  zone_end-Stays true m n h k = k
  zone_end-Stays false m n h k = h

  search_zone-Stays :
      (zone group : Text) (resolvers : List (Text × R)) (e : Option Foreign)
      → Stays (search_zone ns zone group resolvers e)
  unfolding search_zone
  search_zone-Stays zone group [] e = give_up-Stays (ResolveResponse P) e
  search_zone-Stays zone group ((name, r) ∷ rs) e =
      Stays-bind (gets (ns_data name)) _ (Stays-gets _) (λ d.
        zone_end-Stays (eq_text zone d.zone) _ _ (search_zone-Stays zone group rs e) (
          Stays-bind (outside (ns.resolve_from_vg r (group_or_default group d))) _ (Stays-outside _)
            (λ a.
              all_end-Stays name (group_or_default group d) a.value none _
                (search_zone-Stays zone (group_or_default group d) rs a.error))))

  no_zone-Stays : (params : ResolveParams) → Stays (resolve_no_zone ns params)
  unfolding resolve_no_zone
  no_zone-Stays params =
      Stays-if (is_empty params.config_name) _ _
        (Stays-bind _ _ (Stays-gets _) (λ rs. search_all-Stays params.volume_group rs none))
        (Stays-bind (gets (ns_data params.config_name)) _ (Stays-gets _)
          (λ d. resolve_named-Stays params.config_name (group_or_default params.volume_group d)))

  with_zone-Stays : (params : ResolveParams) → Stays (resolve_with_zone ns params)
  unfolding resolve_with_zone
  with_zone-Stays params =
      Stays-if (is_empty params.config_name) _ _
        (Stays-bind _ _ (Stays-gets _)
          (λ rs. search_zone-Stays params.zone params.volume_group rs none))
        (Stays-bind (gets (ns_data params.config_name)) _ (Stays-gets _) (λ d.
          Stays-bind
            (guard (not (eq_text d.zone params.zone)) (
              status failed_precondition
                "requested zone [%s] does not match requested NexentaStor name [%s]"))
            _ (Stays-guard _ _)
            (λ _. resolve_named-Stays params.config_name (group_or_default params.volume_group d))))

  pub resolve_ns-Stays : (params : ResolveParams) → Stays (resolve_ns ns params)
  unfolding resolve_ns
  resolve_ns-Stays params =
      Stays-or_fail (resolve_error ns) _
        (Stays-if (is_empty params.zone) _ _ (no_zone-Stays params) (with_zone-Stays params))
