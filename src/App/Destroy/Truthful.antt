-- ===== src/App/Destroy/Truthful.antt =====
-- When a destroy says that the database was dropped, or that it was kept.
use nuzur_cli.Base.{◌≡◌, refl, Bool, true, false, not, ◌&&◌, [], if◌then◌else◌, arith}
use nuzur_cli.Text.{Text, equal}
use nuzur_cli.App.Destroy.{
  ServerTeardown, DestroyOutcome, teardown_done, teardown_failed, teardown_skipped, is_deleted,
  is_already_gone, is_done, dropped, kept, on_box, database_line,
}

-- The commands ran on the box of the last project, the VM is still there, and the database is its own.
abbrev pub ran_on_box : DestroyOutcome → Bool
ran_on_box o =
    is_done o.server
    && (o.is_last
        && (not (is_deleted o.vm)
            && (not (is_already_gone o.vm) && (not o.external_db && not o.provisioning))))

on_box-dropped :
    (server : ServerTeardown) (purge : Bool)
    → equal (on_box server purge) dropped ≡ (purge && is_done server)
unfolding on_box equal
on_box-dropped teardown_done true = refl
on_box-dropped teardown_done false = refl
on_box-dropped teardown_failed true = refl
on_box-dropped teardown_failed false = refl
on_box-dropped teardown_skipped true = refl
on_box-dropped teardown_skipped false = refl

on_box-kept :
    (server : ServerTeardown) (purge : Bool)
    → equal (on_box server purge) kept ≡ (not purge && is_done server)
unfolding on_box equal
on_box-kept teardown_done true = refl
on_box-kept teardown_done false = refl
on_box-kept teardown_failed true = refl
on_box-kept teardown_failed false = refl
on_box-kept teardown_skipped true = refl
on_box-kept teardown_skipped false = refl

-- Of the lines only the last one can be the target.
only_last :
    (provisioning external deleted gone last purge done : Bool) (target t1 t2 t3 t4 t5 : Text)
    → equal [] target ≡ false
    → equal t1 target ≡ false
    → equal t2 target ≡ false
    → equal t3 target ≡ false
    → equal t4 target ≡ false
    → equal t5 target ≡ (purge && done)
    → equal
        (if provisioning
          then []
          else if external
          then t1
          else if deleted
          then t2
          else if gone
          then t3
          else if not last
          then t4
          else t5)
        target
      ≡ (purge
          && (done && (last && (not deleted && (not gone && (not external && not provisioning))))))
only_last true external deleted gone last purge done target t1 t2 t3 t4 t5 h0 h1 h2 h3 h4 h5 =
    ground (arith, h0)
only_last false true deleted gone last purge done target t1 t2 t3 t4 t5 h0 h1 h2 h3 h4 h5 =
    ground (arith, h1)
only_last false false true gone last purge done target t1 t2 t3 t4 t5 h0 h1 h2 h3 h4 h5 =
    ground (arith, h2)
only_last false false false true last purge done target t1 t2 t3 t4 t5 h0 h1 h2 h3 h4 h5 =
    ground (arith, h3)
only_last false false false false false purge done target t1 t2 t3 t4 t5 h0 h1 h2 h3 h4 h5 =
    ground (arith, h4)
only_last false false false false true purge done target t1 t2 t3 t4 t5 h0 h1 h2 h3 h4 h5 =
    ground (arith, h5)

-- The line says `dropped` exactly if --purge was given and the commands ran on the box, and `kept` exactly if it was not given and they ran: on the box of its last project, with a VM that was neither deleted nor gone, and a database that is not external, after a deploy that was not interrupted.
pub database_line_iff :
    (o : DestroyOutcome)
    → (equal (database_line o) dropped ≡ (o.purge && ran_on_box o))
      × (equal (database_line o) kept ≡ (not o.purge && ran_on_box o))
unfolding database_line equal
database_line_iff o = (
  only_last o.provisioning o.external_db (is_deleted o.vm) (is_already_gone o.vm) o.is_last o.purge
      (is_done o.server) dropped _ _ _ _ (on_box o.server o.purge) refl refl refl refl refl
      (on_box-dropped o.server o.purge),
  only_last o.provisioning o.external_db (is_deleted o.vm) (is_already_gone o.vm) o.is_last
      (not o.purge) (is_done o.server) kept _ _ _ _ (on_box o.server o.purge) refl refl refl refl
      refl (on_box-kept o.server o.purge),
)
