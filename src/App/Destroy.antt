-- ===== src/App/Destroy.antt =====
-- app/command_destroy_outcome.go: what a destroy says of the server, of the VM and of the database.
pub mod Truthful
use nuzur_cli.Base.{Bool, true, false, not, List, [], ◌∷◌, ◌++◌, if◌then◌else◌, is_nil}
use nuzur_cli.Deploy.{Provider}
use nuzur_cli.Text.{Text, codes, join}

pub data ServerTeardown : Type 0 where
  teardown_skipped teardown_done teardown_failed : ServerTeardown

pub data VmFate : Type 0 where
  vm_not_applicable vm_deleted vm_already_gone vm_delete_failed vm_never_created vm_kept : VmFate

pub record DestroyOutcome : Type 0 where
  pub id : Text
  pub provider : Provider
  pub is_last : Bool
  pub provisioning : Bool
  pub server : ServerTeardown
  pub vm : VmFate
  pub revoked : Bool
  pub purge : Bool
  pub external_db : Bool

abbrev pub is_deleted : VmFate → Bool
is_deleted vm_deleted = true
is_deleted vm_not_applicable = false
is_deleted vm_already_gone = false
is_deleted vm_delete_failed = false
is_deleted vm_never_created = false
is_deleted vm_kept = false

abbrev pub is_already_gone : VmFate → Bool
is_already_gone vm_already_gone = true
is_already_gone vm_deleted = false
is_already_gone vm_not_applicable = false
is_already_gone vm_delete_failed = false
is_already_gone vm_never_created = false
is_already_gone vm_kept = false

abbrev pub is_done : ServerTeardown → Bool
is_done teardown_done = true
is_done teardown_skipped = false
is_done teardown_failed = false

-- The headline of a deploy that was interrupted while it created its server.
unfoldable pub interrupted_headline : DestroyOutcome → Text
interrupted_headline o =
    codes "Destroyed deployment "
    ++ (o.id
        ++ (if is_deleted o.vm
            then codes
                " (this deploy was interrupted while creating the server; the VM was deleted)."
            else if is_already_gone o.vm
            then codes " (this deploy was interrupted while creating the server; its "
              ++ (o.provider ++ codes " VM no longer exists — nothing is billing).")
            else codes
                " (this deploy was interrupted before the server was created; nothing to clean up)."))

unfoldable pub server_clause : ServerTeardown → Text
server_clause teardown_done = codes "server cleaned up"
server_clause teardown_failed =
    codes "the server was unreachable, so its on-box cleanup was SKIPPED"
server_clause teardown_skipped = codes "the server was left untouched"

unfoldable pub vm_clauses : Provider → VmFate → List Text
vm_clauses provider vm_deleted = codes "VM deleted" ∷ []
vm_clauses provider vm_already_gone =
    (codes "its " ++ (provider ++ codes " VM no longer exists — nothing is billing")) ∷ []
vm_clauses provider vm_delete_failed =
    (codes "the " ++ (provider ++ codes " VM could NOT be deleted (see the warning above)")) ∷ []
vm_clauses provider vm_kept = codes "the VM was kept (--keep-vm)" ∷ []
vm_clauses provider vm_never_created = codes "no VM was ever created" ∷ []
vm_clauses provider vm_not_applicable = []

unfoldable pub headline_clauses : DestroyOutcome → List Text
unfolding server_clause vm_clauses
headline_clauses o =
    server_clause o.server
    ∷ (vm_clauses o.provider o.vm
        ++ ((if is_done o.server then [] else codes "local and cloud records removed" ∷ [])
            ++ (if o.revoked then codes "shared agent revoked" ∷ [] else [])))

unfoldable pub headline : DestroyOutcome → Text
unfolding interrupted_headline headline_clauses join
headline o =
    if o.provisioning
    then interrupted_headline o
    else if not o.is_last
    then codes "Destroyed deployment "
      ++ (o.id
          ++ codes " (this project removed; the box's shared agent stays for its other projects).")
    else codes "Destroyed deployment "
      ++ (o.id
          ++ (codes " ("
              ++ (join (headline_clauses o) (codes "; ") ++ codes " — last project on the box).")))

abbrev pub dropped : Text
dropped = codes "The database and its app user were dropped (--purge)."

abbrev pub kept : Text
kept = codes "The database was kept — pass --purge to drop it."

-- What became of the database by what ran on the box.
unfoldable pub on_box : ServerTeardown → Bool → Text
on_box teardown_done true = dropped
on_box teardown_done false = kept
on_box teardown_failed true =
    codes "The database was NOT dropped: --purge runs on the box, and the box did not answer."
on_box teardown_failed false =
    codes
      "The database was neither kept nor dropped on purpose — nothing ran on the box. Whatever is on it is still there if it comes back."
on_box teardown_skipped purge =
    codes "The database was not touched — nothing was run on the box (--skip-server)."

unfoldable pub database_line : DestroyOutcome → Text
unfolding on_box
database_line o =
    if o.provisioning
    then []
    else if o.external_db
    then codes
        "The database is external (--db-dsn/--connection) and is untouched — destroying this deployment does not affect it."
    else if is_deleted o.vm
    then codes "The database was on that VM and went with it."
    else if is_already_gone o.vm
    then codes "The database was on that VM, which no longer exists, so it is gone too."
    else if not o.is_last
    then codes
        "This project's database was removed from the box; the box and its other databases are untouched."
    else on_box o.server o.purge

unfoldable pub destroy_summary : DestroyOutcome → List Text
unfolding headline database_line
destroy_summary o =
    headline o ∷ (if is_nil (database_line o) then [] else (codes "  " ++ database_line o) ∷ [])
