-- ===== src/Controller/Store/Refines.antt =====
-- The operations keep what the store of sizes promises.
use mathlib.Core.Path.{fun_ext}
use nexentastor_csi_driver_b.Base.{
  Text, eq_text, eq_text_iff, ℤ, pos, eq_ℤ, eq_ℤ_iff, Bool, true, false, Option, none, some, List,
  [], ◌∷◌, ◌≡◌, ◌≢◌, ◌∙◌, sym, ap, inl, inr, refl, arith, Bool-cases,
}
use nexentastor_csi_driver_b.Exec.{Error, ok, err, Outcome-cases}
use nexentastor_csi_driver_b.Ns.{Ns}
use nexentastor_csi_driver_b.Ns.Appliance.{IsAppliance}
use nexentastor_csi_driver_b.Process.{Process}
use nexentastor_csi_driver_b.Csi.{ExpandResponse}
use nexentastor_csi_driver_b.Controller.Create.{create_new_volume, capacity_or_default}
use nexentastor_csi_driver_b.Controller.Create.Fresh.{create_new_volume_size}
use nexentastor_csi_driver_b.Controller.Volumes.{delete_resolved, expand_resolved}
use nexentastor_csi_driver_b.Controller.Volumes.Deletion.{delete_resolved_gone}
use nexentastor_csi_driver_b.Controller.Volumes.Expansion.{larger, expand_resolved_size}
use nexentastor_csi_driver_b.Controller.Store.{
  Sizes, Operation, create, expand, delete, put, effect, promised, IsLocal, perform, perform_all,
  successes, NoPanic,
}
use nexentastor_csi_driver_b.Controller.Store.Kept.{
  size_in, create-local, delete-local, expand-local,
}
use nexentastor_csi_driver_b.Controller.Store.Failed.{create-failed, delete-failed, expand-failed}

pub capacity_ne_zero : (n : ℤ) → capacity_or_default n ≢ pos 0
capacity_ne_zero n h = elim (Bool-cases (eq_ℤ n (pos 0))) [
  | inl e ↦ ground arith
  | inr e ↦ ground (arith, eq_ℤ_iff n (pos 0))
]

put_of_parts :
    (path : Text) (size : Option ℤ) (before after : Sizes)
    → after path ≡ size
    → ((q : Text) → eq_text path q ≡ false → after q ≡ before q)
    → after ≡ put path size before
put_of_parts path size before after here there = fun_ext λ q. elim (Bool-cases (eq_text path q)) [
  | inl e ↦ rw e (ap after (sym ((eq_text_iff path q).0 e)) ∙ here)
  | inr e ↦ rw e (there q e)
]

promised_ok :
    (op : Operation) (ops : List (Operation × Bool)) (sizes next : Sizes)
    → effect op sizes ≡ some next
    → promised ((op, true) ∷ ops) sizes ≡ promised ops next
unfolding promised
promised_ok op ops sizes next h = rw (h, promised) refl

module _ {W P R : Type 0} (ns : Ns W P R) (laws : IsAppliance ns) (local : IsLocal ns laws)
    (p : P) where
  -- The store that a process sees on the appliance.
  abbrev pub view : Process W R → Sizes
  view s q = size_in ns laws local p q s

  module _ (s : Process W R) where
    created :
        (path : Text) (n : ℤ) (sparse : Bool)
        → (create_new_volume ns (some p) path (capacity_or_default n) sparse s).0 ≡ ok tt
        → effect (create path n) (view s)
          ≡ some (view (create_new_volume ns (some p) path (capacity_or_default n) sparse s).1)
    unfolding effect
    created path n sparse h =
        let size = capacity_or_default n in
        let (made, before) =
          create_new_volume_size ns laws p path size (capacity_ne_zero n) sparse s h in
        let next =
          put_of_parts path (some size) (view s) _ made
            (λ q other. create-local ns laws local p path q size sparse s other) in
        elim before [ inl e ↦ rw (e, next) | inr e ↦ rw (e, (eq_ℤ_iff size size).1 refl, next) ]

    deleted :
        (path : Text)
        → (delete_resolved ns path (some p) s).0 ≡ ok tt
        → effect (delete path) (view s) ≡ some (view (delete_resolved ns path (some p) s).1)
    unfolding effect
    deleted path h = rw (
        put_of_parts path none (view s) _ (delete_resolved_gone ns laws p path s h).0
          (λ q other. delete-local ns laws local p path q s other))

    -- A successful expansion has found a volume.
    pub expand_there :
        (path : Text) (n : ℤ) (r : ExpandResponse)
        → (expand_resolved ns path n (some p) s).0 ≡ ok r
        → (old : ℤ) × (view s path ≡ some old)
    unfolding expand_resolved
    expand_there path n r h =
        let call = ns.get_volume p path s.world in
        elim (Outcome-cases call.0) [
          | inl (inl (v, e)) ↦ (v.volume_size, (laws.get_volume_ok p path s.world v e).1)
          | inl (inr (x, e)) ↦ ground arith
          | inr e ↦ ground arith
        ]

    expanded :
        (path : Text) (n : ℤ) (r : ExpandResponse)
        → (expand_resolved ns path n (some p) s).0 ≡ ok r
        → effect (expand path n) (view s) ≡ some (view (expand_resolved ns path n (some p) s).1)
    unfolding effect
    expanded path n r h =
        let (old, there) = expand_there path n r h in
        let made = expand_resolved_size ns laws p path old n s r there h in
        let next =
          put_of_parts path (some (larger old n)) (view s) _ made.0
            (λ q other. expand-local ns laws local p path q n s other) in
        rw (there, next)

    pub unchanged :
        (path : Text) (t : Process W R)
        → view t path ≡ view s path
        → ((q : Text) → eq_text path q ≡ false → view t q ≡ view s q)
        → view t ≡ view s
    unchanged path t here there = fun_ext λ q. elim (Bool-cases (eq_text path q)) [
      | inl e ↦ let same = (eq_text_iff path q).0 e in rw same at here
      | inr e ↦ there q e
    ]

  module _ (sparse : Bool) where
    -- One operation: success has the promised effect.
    perform-ok :
        (op : Operation) (s : Process W R)
        → (perform ns p sparse op s).0 ≡ ok tt
        → effect op (view s) ≡ some (view (perform ns p sparse op s).1)
    unfolding perform
    perform-ok (create path n) s h = created s path n sparse h
    perform-ok (delete path) s h = deleted s path h
    perform-ok (expand path n) s h =
        let e = expand_resolved ns path n (some p) s in
        elim (Outcome-cases e.0) [
          | inl (inl (r, f)) ↦
              let same : (perform ns p sparse (expand path n) s).1 ≡ e.1 = ground arith in
              rw same (expanded s path n r f)
          | inl (inr (x, f)) ↦ ground arith
          | inr f ↦ ground arith
        ]

    perform-err :
        (op : Operation) (s : Process W R) (x : Error)
        → (perform ns p sparse op s).0 ≡ err x
        → view (perform ns p sparse op s).1 ≡ view s
    unfolding perform
    perform-err (create path n) s x h =
        unchanged s path (create_new_volume ns (some p) path (capacity_or_default n) sparse s).1
          (create-failed ns laws local p path s x (capacity_or_default n) sparse h)
          (λ q other. create-local ns laws local p path q (capacity_or_default n) sparse s other)
    perform-err (delete path) s x h =
        unchanged s path (delete_resolved ns path (some p) s).1
          (delete-failed ns laws local p path s x h)
          (λ q other. delete-local ns laws local p path q s other)
    perform-err (expand path n) s x h =
        let e = expand_resolved ns path n (some p) s in
        elim (Outcome-cases e.0) [
          | inl (inl (r, f)) ↦ ground arith
          | inl (inr (y, f)) ↦
              let same : (perform ns p sparse (expand path n) s).1 ≡ e.1 = ground arith in
              rw same (
                unchanged s path e.1 (expand-failed ns laws local p path s y n f)
                  (λ q other. expand-local ns laws local p path q n s other))
          | inr f ↦ ground arith
        ]

    -- Whatever operations run on the appliance, one after the other, and whichever of them
    -- succeed: the sizes that they leave are those of the promise, where each success has its
    -- effect and no failure has any. The calls of the library have their documented effects,
    -- change the sizes at their own path alone, and none if they fail, and they do not panic.
    pub perform_all-promised :
        (ops : List Operation) (s : Process W R)
        → NoPanic ns p sparse ops s
        → promised (successes ns p sparse ops s) (view s)
          ≡ some (view (perform_all ns p sparse ops s))
    unfolding promised successes perform_all NoPanic
    perform_all-promised [] s h = refl
    perform_all-promised (op ∷ ops) s h =
        let t = (perform ns p sparse op s).1 in
        let rest = perform_all-promised ops t h.1 in
        elim (Outcome-cases (perform ns p sparse op s).0) [
          | inl (inl (u, e)) ↦
              rw e (promised_ok op (successes ns p sparse ops t) _ _ (perform-ok op s e) ∙ rest)
          | inl (inr (x, e)) ↦
              rw e (ap (promised (successes ns p sparse ops t)) (sym (perform-err op s x e)) ∙ rest)
          | inr e ↦ absurd (h.0 e)
        ]
