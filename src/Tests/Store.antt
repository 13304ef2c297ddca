-- ===== src/Tests/Store.antt =====
-- The appliance in memory as a store of sizes, and how long the driver sleeps on it.
use nexentastor_csi_driver_b.Base.{
  ℕ, ◌+◌, ◌≤◌, Text, bytes, eq_text, eq_text_iff, ℤ, pos, true, false, Option, none, some, List, [],
  ◌∷◌, ◌≡◌, ◌≢◌, refl, arith,
}
use nexentastor_csi_driver_b.Exec.{Error, Outcome, ok, err}
use nexentastor_csi_driver_b.Process.{Process}
use nexentastor_csi_driver_b.Controller.Create.{accept_existing, create_new_volume}
use nexentastor_csi_driver_b.Controller.Volumes.{
  unmap, destroy_lun_mappings, delete_resolved, expand_resolved, unpublish_resolved,
}
use nexentastor_csi_driver_b.Controller.Volumes.Slept.{Sleeps, unpublish_resolved-slept}
use nexentastor_csi_driver_b.Controller.Store.{
  Operation, create, expand, delete, IsLocal, perform, perform_all, successes, promised, NoPanic,
}
use nexentastor_csi_driver_b.Controller.Store.Again.{Answers, perform_again}
use nexentastor_csi_driver_b.Controller.Store.Refines.{view, perform_all-promised}
use nexentastor_csi_driver_b.Tests.Appliance.{
  Box, memory, memory-IsAppliance, answer, volume_of, fault, create_at, update_at, destroy_at,
  put_size,
}
use nexentastor_csi_driver_b.Tests.Deletion.{sticky}
use nexentastor_csi_driver_b.Tests.Fixtures.{started, volume_v}

answer_same : {A : Type 0} (found : Option A) (e : Error) (w : Box) → (answer found e w).1 ≡ w
answer_same none e w = refl
answer_same (some a) e w = refl

put_size_other :
    (path q : Text) (size : Option ℤ) (w : Box)
    → eq_text path q ≡ false
    → (put_size path size w).size_at q ≡ w.size_at q
put_size_other path q size w other = ground (arith, eq_text_iff path q, eq_text_iff q path)

create_other :
    (path q : Text) (size : ℤ) (found : Option ℤ) (w : Box)
    → eq_text path q ≡ false
    → (create_at path size found w).1.size_at q ≡ w.size_at q
create_other path q size none w other = put_size_other path q (some size) w other
create_other path q size (some old) w other = refl

update_other :
    (path q : Text) (size : ℤ) (found : Option ℤ) (w : Box)
    → eq_text path q ≡ false
    → (update_at path size found w).1.size_at q ≡ w.size_at q
update_other path q size none w other = refl
update_other path q size (some old) w other = put_size_other path q (some size) w other

update_failed :
    (path : Text) (size : ℤ) (found : Option ℤ) (w : Box) (e : Error)
    → (update_at path size found w).0 ≡ err e
    → (update_at path size found w).1.size_at path ≡ w.size_at path
update_failed path size none w e h = refl
update_failed path size (some old) w e h = ground arith

destroy_other :
    (path q : Text) (found : Option ℤ) (w : Box)
    → eq_text path q ≡ false
    → (destroy_at path found w).1.size_at q ≡ w.size_at q
destroy_other path q none w other = refl
destroy_other path q (some old) w other = put_size_other path q none w other

destroy_failed :
    (path : Text) (found : Option ℤ) (w : Box) (e : Error)
    → (destroy_at path found w).0 ≡ err e
    → (destroy_at path found w).1.size_at path ≡ w.size_at path
destroy_failed path none w e h = refl
destroy_failed path (some old) w e h = ground arith

get_volume_same :
    (path q : Text) (found : Option ℤ) (w : Box)
    → (answer (volume_of path found) (fault 2) w).1.size_at q ≡ w.size_at q
get_volume_same path q none w = refl
get_volume_same path q (some n) w = refl

abbrev memory-IsLocal : IsLocal memory memory-IsAppliance
memory-IsLocal = record {
  get_volume_keeps = λ p path w q. get_volume_same path q (w.size_at path) w;
  get_lun_mappings_keeps = λ p query w q. refl;
  destroy_lun_mapping_keeps = λ p id w q. refl;
  create_volume_local =
      λ p path size sparse w q other. create_other path q size (w.size_at path) w other;
  update_volume_local = λ p path size w q other. update_other path q size (w.size_at path) w other;
  update_volume_failed = λ p path size w e h. update_failed path size (w.size_at path) w e h;
  destroy_volume_local = λ p path w q other. destroy_other path q (w.size_at path) w other;
  destroy_volume_failed = λ p path w e h. destroy_failed path (w.size_at path) w e h;
}

-- The second one fails, since the volume is there at another size.
abbrev operations : List Operation
operations =
    create (bytes "p/g/n") (pos 50)
    ∷ create volume_v (pos 7)
    ∷ expand volume_v (pos 200)
    ∷ delete volume_v
    ∷ []

perform_all-promised_example :
    promised
      (successes memory tt true operations started)
      (view memory memory-IsAppliance memory-IsLocal tt started)
    ≡ some (
        view memory memory-IsAppliance memory-IsLocal tt
          (perform_all memory tt true operations started))
unfolding NoPanic perform perform_all create_new_volume accept_existing expand_resolved
    delete_resolved unmap destroy_lun_mappings eq_text
perform_all-promised_example =
    perform_all-promised memory memory-IsAppliance memory-IsLocal tt true operations started
      (λ e. ground arith, (λ e. ground arith, (λ e. ground arith, (λ e. ground arith, tt))))

memory-Answers : Answers memory memory-IsAppliance
memory-Answers = record {
  refuses = λ p path size old sparse w there. (fault 1, rw there refl, refl);
  finds = λ p path old w there. (record { path = path; volume_size = old }, rw there refl);
  misses = λ p path w gone. (fault 2, rw gone refl, refl);
  lists = λ p path w. (w.luns_of path, refl);
}

abbrev growth : Operation
growth = expand volume_v (pos 200)

abbrev grown : Process Box (Unit {0})
grown = (perform memory tt true growth started).1

perform_again_example :
    ((perform memory tt true growth grown).0 ≡ ok tt)
    × (view memory memory-IsAppliance memory-IsLocal tt (perform memory tt true growth grown).1
        ≡ view memory memory-IsAppliance memory-IsLocal tt grown)
unfolding perform expand_resolved eq_text
perform_again_example =
    perform_again memory memory-IsAppliance memory-IsLocal memory-Answers tt true growth started
      refl

-- A sleep is counted.
abbrev nap : ℕ → Box → Outcome (Unit {0}) × Box
nap n w = (ok tt, record w { time = w.time + n })

sticky-Sleeps : Sleeps {R = Unit {0}} sticky nap
sticky-Sleeps = record {
  slept = λ w. w.time;
  adds = λ n w. omega arith;
  looks = λ p q w. omega arith;
  removes = λ p id w. omega arith;
}

unpublish_resolved-slept_example :
    ((unpublish_resolved sticky nap volume_v (some tt) started).0 ≢ ok false)
    × (sticky-Sleeps.slept (unpublish_resolved sticky nap volume_v (some tt) started).1.world
        ≤ sticky-Sleeps.slept started.world + 1888)
unpublish_resolved-slept_example =
    unpublish_resolved-slept sticky nap sticky-Sleeps tt volume_v started
