-- ===== src/Controller/Connect/Search.antt =====
-- What `resolveNS` finds, and how it fails.
use nexentastor_csi_driver_b.Base.{
  Text, eq_text, eq_text_iff, is_empty, lookup, value_or, true, false, Option, none, some, List, [],
  ◌∷◌, ◌≡◌, ◌⊎◌, inl, inr, ap, Entry, lookup-Entry, refl, sym, arith, Bool-cases, Option-cases,
}
use nexentastor_csi_driver_b.Exec.{Foreign, ok, Outcome-cases}
use nexentastor_csi_driver_b.Ns.{Ns, Resolved}
use nexentastor_csi_driver_b.Process.{Process, ns_data}
use nexentastor_csi_driver_b.Controller.Connect.{
  ResolveParams, ResolveResponse, give_up, resolve_named, search_all, resolve_no_zone, search_zone,
  resolve_with_zone, resolve_ns, group_or_default,
}

module _ {W P R : Type 0} (ns : Ns W P R) where
  -- The resolver of a named configuration in a list of resolvers: one that the list has under the
  -- name or, for a name that it has not at all, the zero value of a Go map.
  abbrev pub IsOf : Text → List (Text × R) → R → Type 0
  IsOf name resolvers resolver =
      Entry name resolver resolvers
      ⊎ ((lookup name resolvers ≡ none) × (resolver ≡ ns.zero_resolver))

  -- A call of a resolver and what it answered: the resolver is that of the response's configuration,
  -- and the provider of the response is its answer for the response's group.
  pub record IsFrom (Owned : Text → R → Type 0) (r : ResolveResponse P) : Type 0 where
    pub resolver : R
    pub owned : Owned r.config_name resolver
    pub before : W
    pub answer : Resolved P
    pub asked : (ns.resolve_from_vg resolver r.volume_group before).0 ≡ ok answer
    pub same : r.ns_provider ≡ answer.value

  module _ (zone : Text) where
    search_zone_sound :
        (Owned : Text → R → Type 0) (group : Text) (resolvers : List (Text × R))
        (e : Option Foreign) (s : Process W R) (r : ResolveResponse P)
        → ((name : Text) (q : R) → Entry name q resolvers → Owned name q)
        → (search_zone ns zone group resolvers e s).0 ≡ ok r
        → (eq_text zone (ns_data r.config_name s).zone ≡ true) × IsFrom Owned r
    unfolding search_zone give_up
    search_zone_sound Owned group [] none s r own h = cc
    search_zone_sound Owned group [] (some f) s r own h = ground arith
    search_zone_sound Owned group ((name, resolver) ∷ resolvers) e s r own h =
        let vg = group_or_default group (ns_data name s) in
        let call = ns.resolve_from_vg resolver vg s.world in
        elim (Bool-cases (eq_text zone (ns_data name s).zone)) [
          | inr other ↦
              search_zone_sound Owned group resolvers e s r (λ n q i. own n q (inr i))
                (ground arith)
          | inl here ↦ elim (Outcome-cases call.0) [
            | inl (inl (answer, asked)) ↦ elim (Option-cases answer.value) [
              | inl missing ↦
                  search_zone_sound Owned vg resolvers answer.error (record s { world = call.1 }) r
                    (λ n q i. own n q (inr i)) (ground arith)
              | inr (p, given) ↦
                  let found_here : r
                      ≡ record { volume_group = vg; ns_provider = some p; config_name = name } =
                    ground arith in
                  rw found_here (
                    here,
                    record {
                      resolver = resolver;
                      owned = own name resolver (inl (refl, refl));
                      before = s.world;
                      answer = answer;
                      asked = asked;
                      same = sym given;
                    },
                  )
            ]
            | inl (inr (x, asked)) ↦ ground arith
            | inr asked ↦ ground arith
          ]
        ]

  search_all_sound :
      (Owned : Text → R → Type 0) (group : Text) (resolvers : List (Text × R)) (e : Option Foreign)
      (s : Process W R) (r : ResolveResponse P)
      → ((name : Text) (q : R) → Entry name q resolvers → Owned name q)
      → (search_all ns group resolvers e s).0 ≡ ok r
      → IsFrom Owned r
  unfolding search_all give_up
  search_all_sound Owned group [] none s r own h = cc
  search_all_sound Owned group [] (some f) s r own h = ground arith
  search_all_sound Owned group ((name, resolver) ∷ resolvers) e s r own h =
      let vg = group_or_default group (ns_data name s) in
      let call = ns.resolve_from_vg resolver vg s.world in
      elim (Outcome-cases call.0) [
        | inl (inl (answer, asked)) ↦ elim (Option-cases answer.value) [
          | inl missing ↦
              search_all_sound Owned group resolvers answer.error (record s { world = call.1 }) r
                (λ n q i. own n q (inr i)) (ground arith)
          | inr (p, given) ↦
              let found_here : r
                  ≡ record { volume_group = vg; ns_provider = some p; config_name = name } =
                ground arith in
              rw found_here (record {
                resolver = resolver;
                owned = own name resolver (inl (refl, refl));
                before = s.world;
                answer = answer;
                asked = asked;
                same = sym given;
              })
        ]
        | inl (inr (x, asked)) ↦ ground arith
        | inr asked ↦ ground arith
      ]

  value_or-IsOf :
      (name : Text) (resolvers : List (Text × R))
      → IsOf name resolvers (value_or ns.zero_resolver (lookup name resolvers))
  value_or-IsOf name resolvers = elim (Option-cases (lookup name resolvers)) [
    | inl missing ↦ inr (missing, ap (value_or ns.zero_resolver) missing)
    | inr (q, there) ↦ inl (rw there (lookup-Entry name q resolvers there))
  ]

  -- The resolvers of a process.
  abbrev pub Of : Process W R → Text → R → Type 0
  Of s name = IsOf name s.resolvers

  resolve_named_sound :
      (name group : Text) (s : Process W R) (r : ResolveResponse P)
      → (resolve_named ns name group s).0 ≡ ok r
      → (r.config_name ≡ name) × IsFrom (Of s) r
  unfolding resolve_named
  resolve_named_sound name group s r h =
      let resolver = value_or ns.zero_resolver (lookup name s.resolvers) in
      let call = ns.resolve_from_vg resolver group s.world in
      elim (Outcome-cases call.0) [
        | inl (inl (answer, asked)) ↦
            let found_here : r
                ≡ record { volume_group = group; ns_provider = answer.value; config_name = name } =
              ground arith in
            rw found_here (
              refl,
              record {
                resolver = resolver;
                owned = value_or-IsOf name s.resolvers;
                before = s.world;
                answer = answer;
                asked = asked;
                same = refl;
              },
            )
        | inl (inr (x, asked)) ↦ ground arith
        | inr asked ↦ ground arith
      ]

  -- What `resolveNS` promises of a response: its provider is the answer of its configuration's resolver
  -- for its group, it keeps a requested configuration, and it lies in a requested zone.
  pub record Answers (params : ResolveParams) (s : Process W R) (r : ResolveResponse P)
      : Type 0 where
    pub from : IsFrom (Of s) r
    pub named : is_empty params.config_name ≡ false → r.config_name ≡ params.config_name
    pub in_zone : is_empty params.zone ≡ false → (ns_data r.config_name s).zone ≡ params.zone

  resolve_no_zone_sound :
      (params : ResolveParams) (s : Process W R) (r : ResolveResponse P)
      → (resolve_no_zone ns params s).0 ≡ ok r
      → IsFrom (Of s) r × (is_empty params.config_name ≡ false → r.config_name ≡ params.config_name)
  unfolding resolve_no_zone
  resolve_no_zone_sound params s r h = elim (Bool-cases (is_empty params.config_name)) [
    | inl free ↦ (
      search_all_sound (Of s) params.volume_group s.resolvers none s r (λ n q i. inl i)
          (ground arith),
      λ k. cc,
    )
    | inr named ↦
        let x =
          resolve_named_sound params.config_name
            (group_or_default params.volume_group (ns_data params.config_name s)) s r
            (ground arith) in
        (x.1, λ _. x.0)
  ]

  resolve_with_zone_sound :
      (params : ResolveParams) (s : Process W R) (r : ResolveResponse P)
      → (resolve_with_zone ns params s).0 ≡ ok r
      → IsFrom (Of s) r
        × (is_empty params.config_name ≡ false → r.config_name ≡ params.config_name)
        × ((ns_data r.config_name s).zone ≡ params.zone)
  unfolding resolve_with_zone
  resolve_with_zone_sound params s r h = elim (Bool-cases (is_empty params.config_name)) [
    | inl free ↦
        let x =
          search_zone_sound params.zone (Of s) params.volume_group s.resolvers none s r
            (λ n q i. inl i) (ground arith) in
        (x.1, λ k. cc, sym ((eq_text_iff _ _).0 x.0))
    | inr named ↦ elim (Bool-cases (eq_text (ns_data params.config_name s).zone params.zone)) [
      | inl same ↦
          let x =
            resolve_named_sound params.config_name
              (group_or_default params.volume_group (ns_data params.config_name s)) s r
              (ground arith) in
          (x.1, λ _. x.0, rw x.0 ((eq_text_iff _ _).0 same))
      | inr other ↦ ground arith
    ]
  ]

  -- A response of `resolveNS` names a configuration, and its provider is what the resolver of that
  -- configuration has answered for the volume group of the response; where the request names a
  -- configuration or a zone, the response keeps to it. The resolver is an entry of the server's map
  -- under the name of the configuration, or the zero value for a name that the map has not.
  pub resolve_ns-Answers :
      (params : ResolveParams) (s : Process W R) (r : ResolveResponse P)
      → (resolve_ns ns params s).0 ≡ ok r
      → Answers params s r
  unfolding resolve_ns
  resolve_ns-Answers params s r h = elim (Bool-cases (is_empty params.zone)) [
    | inl anywhere ↦
        let x = resolve_no_zone_sound params s r (ground arith) in
        record { from = x.0; named = x.1; in_zone = λ k. cc }
    | inr zoned ↦
        let x = resolve_with_zone_sound params s r (ground arith) in
        record { from = x.0; named = x.1; in_zone = λ _. x.2 }
  ]
