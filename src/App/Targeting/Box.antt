-- ===== src/App/Targeting/Box.antt =====
-- `decideDeployBox` of app/deploy_targeting.go: the server a deploy runs against. How fmt prints a
-- quoted text (%q) is an argument of the model.
use nuzur_cli.Base.{ℕ, Bool, List, [], ◌++◌, Option, none, some, if◌then◌else◌, is_nil, not}
use nuzur_cli.Deploy.{Provider, Deployment, uses_given_host}
use nuzur_cli.Text.{Text, codes, equal, trim_space}
use nuzur_cli.App.Targeting.{pick_managed_box, host_suffix, spaced, last_run_fact}

pub data BoxAction : Type 0 where
  box_use_given_host box_provision box_reuse_recorded box_fail : BoxAction

pub record BoxDecisionInput : Type 0 where
  pub provider : Provider
  pub host_flag : Text
  pub new_vm : Bool
  pub identifier : Text
  pub project_uuid : Text
  pub deployments : List Deployment

pub record BoxDecision : Type 0 where
  pub action : BoxAction
  pub host : Text
  pub user : Text
  pub port : ℕ
  pub match : Option Deployment
  pub message : Text
  pub error : Text

-- A decision to provision, with the record it was taken from and what is said of it.
abbrev provision : Option Deployment → Text → BoxDecision
provision r message = record {
  action = box_provision;
  host = [];
  user = [];
  port = 0;
  match = r;
  message = message;
  error = [];
}

module _ (quote : Text → Text) where
  unfoldable pub creating_first : BoxDecisionInput → Text
  creating_first i =
      codes "Creating a new "
      ++ (i.provider
          ++ (codes " VM for identifier "
              ++ (quote i.identifier
                  ++ codes
                      " — no previous deployment of this project under that identifier is recorded on this machine, so a new server will be created and will bill.")))

  unfoldable pub creating_elsewhere : BoxDecisionInput → Deployment → Text
  unfolding host_suffix
  creating_elsewhere i r =
      codes "Creating a new "
      ++ (i.provider
          ++ (codes " VM for identifier "
              ++ (quote i.identifier
                  ++ (codes ": the recorded server for this identifier is on "
                      ++ (r.provider
                          ++ (codes " (deployment "
                              ++ (r.id
                                  ++ (host_suffix r.host
                                      ++ (codes "), which --provider "
                                          ++ (i.provider
                                              ++ (codes
                                                    " cannot reuse. That server keeps running and billing — remove it with `nuzur-cli destroy "
                                                  ++ (r.id ++ codes "`."))))))))))))

  unfoldable pub recorded_where : Deployment → Text
  unfolding host_suffix
  recorded_where r =
      if is_nil (trim_space r.host)
      then codes "deployment " ++ (r.id ++ codes " was left mid-provision and may have leaked a VM")
      else codes "deployment "
        ++ (r.id ++ (host_suffix r.host ++ codes " is already recorded for it"))

  unfoldable pub creating_beside : BoxDecisionInput → Deployment → Text
  unfolding recorded_where spaced last_run_fact
  creating_beside i r =
      codes "--new-vm: creating a NEW "
      ++ (i.provider
          ++ (codes " VM for identifier "
              ++ (quote i.identifier
                  ++ (codes " even though "
                      ++ (recorded_where r
                          ++ (codes "."
                              ++ (spaced (last_run_fact (some r))
                                  ++ (codes
                                        " If that server still exists it keeps billing alongside this one — check with `nuzur-cli destroy "
                                      ++ (r.id
                                          ++ (codes "`, which removes it, or your "
                                              ++ (i.provider ++ codes " console.")))))))))))

  unfoldable pub left_mid_provision : BoxDecisionInput → Deployment → Text
  unfolding spaced last_run_fact
  left_mid_provision i r =
      codes "deployment "
      ++ (r.id
          ++ (codes " for identifier "
              ++ (quote i.identifier
                  ++ (codes " was left mid-provision on "
                      ++ (i.provider
                          ++ (codes
                                " and never recorded a host, so there is no server to reuse and a VM may already exist and be billing."
                              ++ (spaced (last_run_fact (some r))
                                  ++ (codes "\nRun `nuzur-cli destroy "
                                      ++ (r.id
                                          ++ codes
                                              "` to remove it (destroy can still find the VM by the name it reserved), or re-run with --new-vm to provision a fresh server and deal with that one yourself.")))))))))

  unfoldable pub reusing : BoxDecisionInput → Deployment → Text
  unfolding spaced last_run_fact
  reusing i r =
      codes "Reusing the existing "
      ++ (i.provider
          ++ (codes " server "
              ++ (r.host
                  ++ (codes " for identifier "
                      ++ (quote i.identifier
                          ++ (codes " (deployment "
                              ++ (r.id
                                  ++ (codes ") — no new VM will be created."
                                      ++ (spaced (last_run_fact (some r))
                                          ++ codes
                                              " Pass --new-vm to provision a fresh one instead.")))))))))

  -- The decision for a managed provider, by the record that was picked.
  unfoldable pub decide_managed : BoxDecisionInput → Option Deployment → BoxDecision
  unfolding creating_first creating_elsewhere creating_beside left_mid_provision reusing equal
  decide_managed i none = provision none (creating_first i)
  decide_managed i (some r) =
      if not (equal r.provider i.provider)
      then provision (some r) (creating_elsewhere i r)
      else if i.new_vm
      then provision (some r) (creating_beside i r)
      else if is_nil (trim_space r.host)
      then record {
        action = box_fail;
        host = [];
        user = [];
        port = 0;
        match = some r;
        message = [];
        error = left_mid_provision i r;
      }
      else record {
        action = box_reuse_recorded;
        host = r.host;
        user = r.user;
        port = r.port;
        match = some r;
        message = reusing i r;
        error = [];
      }

  unfoldable pub decide_deploy_box : BoxDecisionInput → BoxDecision
  unfolding decide_managed pick_managed_box uses_given_host
  decide_deploy_box i =
      if uses_given_host i.provider
      then record {
        action = box_use_given_host;
        host = i.host_flag;
        user = [];
        port = 0;
        match = none;
        message = [];
        error = [];
      }
      else decide_managed i (pick_managed_box i.deployments i.project_uuid i.identifier)
