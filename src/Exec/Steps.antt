-- ===== src/Exec/Steps.antt =====
-- A sequence that ends well: so did its first part, and the rest from there.
use nexentastor_csi_driver_b.Base.{
  refl, Bool, true, false, Option, none, some, ◌≡◌, inl, inr, arith,
}
use nexentastor_csi_driver_b.Exec.{
  Exec, Error, ok, guard, or_fail, or_missing, Outcome-cases, ◌>>=◌, ◌>>◌,
}

module _ {S A B : Type 0} (m : Exec S A) (f : A → Exec S B) (s : S) (b : B) where
  pub bind_ok : ((m >>= f) s).0 ≡ ok b → (a : A) × ((m s).0 ≡ ok a) × ((f a (m s).1).0 ≡ ok b)
  bind_ok h = elim (Outcome-cases (m s).0) [
    | inl (inl (a, e)) ↦ (a, e, ground (arith, e))
    | inl (inr (x, e)) ↦ ground (arith, e)
    | inr e ↦ ground (arith, e)
  ]

module _ {S B : Type 0} where
  -- A check that has been passed changes nothing.
  pub guard_ok :
      (test : Bool) (e : Error) (m : Exec S B) (s : S) (b : B)
      → ((guard test e >> m) s).0 ≡ ok b
      → (test ≡ false) × ((m s).0 ≡ ok b)
  guard_ok true e m s b h = cc
  guard_ok false e m s b h = (refl, h)

  pub or_missing_ok :
      {A : Type 0} (o : Option A) (e : Error) (f : A → Exec S B) (s : S) (b : B)
      → ((or_missing e o >>= f) s).0 ≡ ok b
      → (a : A) × (o ≡ some a) × ((f a s).0 ≡ ok b)
  or_missing_ok none e f s b h = cc
  or_missing_ok (some a) e f s b h = (a, refl, h)

module _ {S : Type 0} where
  -- A first part that ends well is followed by the rest, from where it has come to.
  pub bind_at :
      {A B : Type 0} (m : Exec S A) (f : A → Exec S B) (s : S) (a : A)
      → (m s).0 ≡ ok a
      → (m >>= f) s ≡ f a (m s).1
  bind_at m f s a h = ground arith

  -- A call whose errors are renamed.
  pub or_fail_ok :
      {A : Type 0} (f : Error → Error) (m : Exec S A) (s : S) (a : A)
      → (or_fail f m s).0 ≡ ok a
      → ((m s).0 ≡ ok a) × ((or_fail f m s).1 ≡ (m s).1)
  or_fail_ok f m s a h = elim (Outcome-cases (m s).0) [
    | inl (inl (b, e)) ↦ (ground arith, ground arith)
    | inl (inr (x, e)) ↦ ground arith
    | inr e ↦ ground arith
  ]

module _ {S B : Type 0} (Q : S → Type 0) (b : B) where
  -- Where the call ends well with the value, it leads to a state with the property.
  pub record Leads (m : Exec S B) : Type 0 where
    pub ends : (s : S) → (m s).0 ≡ ok b → Q (m s).1

  -- A sequence leads where its rest does, and the rest knows what the first part has answered.
  pub Leads-bind :
      {A : Type 0} (m : Exec S A) (f : A → Exec S B)
      → ((a : A) (s : S) → (m s).0 ≡ ok a → Leads (f a))
      → Leads (m >>= f)
  Leads-bind m f k = record {
    ends = λ s h.
        let (a, e, h1) = bind_ok m f s b h in rw (bind_at m f s a e) ((k a s e).ends (m s).1 h1);
  }
