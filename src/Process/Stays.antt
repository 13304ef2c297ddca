-- ===== src/Process/Stays.antt =====
-- Calls that change nothing but the world outside: the configuration and the resolvers stay.
use nexentastor_csi_driver_b.Base.{
  Bool, true, false, Option, none, some, ◌≡◌, refl, inl, inr, arith, if◌then◌else◌,
}
use nexentastor_csi_driver_b.Exec.{
  Exec, Error, pure, fail, crash, gets, guard, attempt, or_fail, or_missing, deref, Outcome-cases,
  ◌>>=◌,
}
use nexentastor_csi_driver_b.Process.{Process, outside, on}

module _ {W R : Type 0} where
  -- What stays of a process.
  pub record Same (s t : Process W R) : Type 0 where
    pub config : t.config ≡ s.config
    pub resolvers : t.resolvers ≡ s.resolvers
    pub node_resolvers : t.node_resolvers ≡ s.node_resolvers

  pub Same-refl : (s : Process W R) → Same s s
  Same-refl s = record { config = refl; resolvers = refl; node_resolvers = refl }

  pub Same-trans : {s t u : Process W R} → Same s t → Same t u → Same s u
  Same-trans h k = ground arith

  pub record Stays {A : Type 0} (m : Exec (Process W R) A) : Type 0 where
    pub same : (s : Process W R) → Same s (m s).1

  pub Stays-fail : (A : Type 0) (e : Error) → Stays {A = A} (fail e)
  Stays-fail A e = record { same = λ s. Same-refl s }

  pub Stays-crash : (A : Type 0) → Stays {A = A} crash
  Stays-crash A = record { same = λ s. Same-refl s }

  module _ {A : Type 0} where
    pub Stays-pure : (a : A) → Stays (pure a)
    Stays-pure a = record { same = λ s. Same-refl s }

    pub Stays-gets : (f : Process W R → A) → Stays (gets f)
    Stays-gets f = record { same = λ s. Same-refl s }

    pub Stays-outside : (m : Exec W A) → Stays (outside m)
    Stays-outside m = record {
      same = λ s. record { config = refl; resolvers = refl; node_resolvers = refl };
    }

    pub Stays-on : {P : Type 0} (p : Option P) (call : P → Exec W A) → Stays (on p call)
    Stays-on none call = Stays-crash A
    Stays-on (some p) call = Stays-outside (call p)

    pub Stays-deref : (o : Option A) → Stays (deref o)
    Stays-deref none = Stays-crash A
    Stays-deref (some a) = Stays-pure a

    pub Stays-or_missing : (e : Error) (o : Option A) → Stays (or_missing e o)
    Stays-or_missing e none = Stays-fail A e
    Stays-or_missing e (some a) = Stays-pure a

    pub Stays-attempt : (m : Exec (Process W R) A) → Stays m → Stays (attempt m)
    Stays-attempt m h = record {
      same = λ s. elim (Outcome-cases (m s).0) [
        | inl (inl (a, e)) ↦ ground (arith, h.same s)
        | inl (inr (x, e)) ↦ ground (arith, h.same s)
        | inr e ↦ ground (arith, h.same s)
      ];
    }

    pub Stays-or_fail :
        (f : Error → Error) (m : Exec (Process W R) A) → Stays m → Stays (or_fail f m)
    Stays-or_fail f m h = record {
      same = λ s. elim (Outcome-cases (m s).0) [
        | inl (inl (a, e)) ↦ ground (arith, h.same s)
        | inl (inr (x, e)) ↦ ground (arith, h.same s)
        | inr e ↦ ground (arith, h.same s)
      ];
    }

    pub Stays-if :
        (b : Bool) (m n : Exec (Process W R) A) → Stays m → Stays n → Stays (if b then m else n)
    Stays-if true m n h k = h
    Stays-if false m n h k = k

    pub Stays-bool :
        (b : Bool) (m n : Exec (Process W R) A)
        → Stays m
        → Stays n
        → Stays (elim b [ true ↦ m | false ↦ n ])
    Stays-bool true m n h k = h
    Stays-bool false m n h k = k

  pub Stays-option :
      {A B : Type 0} (o : Option A) (m : Exec (Process W R) B) (k : A → Exec (Process W R) B)
      → Stays m
      → ((a : A) → Stays (k a))
      → Stays (elim o [ none ↦ m | some a ↦ k a ])
  Stays-option none m k h j = h
  Stays-option (some a) m k h j = j a

  pub Stays-guard : (b : Bool) (e : Error) → Stays (guard b e)
  Stays-guard true e = Stays-fail Unit e
  Stays-guard false e = Stays-pure tt

  pub Stays-bind :
      {A B : Type 0} (m : Exec (Process W R) A) (f : A → Exec (Process W R) B)
      → Stays m
      → ((a : A) → Stays (f a))
      → Stays (m >>= f)
  Stays-bind m f h k = record {
    same = λ s. elim (Outcome-cases (m s).0) [
      | inl (inl (a, e)) ↦ ground (arith, h.same s, (k a).same (m s).1)
      | inl (inr (x, e)) ↦ ground (arith, h.same s)
      | inr e ↦ ground (arith, h.same s)
    ];
  }

pub ruleset stays = (
  Stays-bind, Stays-pure, Stays-fail, Stays-crash, Stays-gets, Stays-outside, Stays-on, Stays-deref,
  Stays-or_missing, Stays-attempt, Stays-or_fail, Stays-if, Stays-guard, Stays-option,
)
