-- ===== src/App/Pipeline/Records/Carried.antt =====
-- Which server a record names after several runs went on from it.
use nuzur_cli.Text.{Text}
use nuzur_cli.Base.{
  ◌≡◌, Bool, true, false, not, ◌&&◌, some, is_nil, if◌then◌else◌, Option, List, ◌⊎◌, ℕ, All, [],
  none,
}
use nuzur_cli.Deploy.{Deployment, creates_infrastructure, Provider}
use nuzur_cli.App.Pipeline.Records.{
  RunFacts, RecordWrite, write_record, agent_paired, box_recorded, InstanceRef, released,
  instance_created, finalized, failure_noted, ◌∷◌,
}

-- What a server is deleted by: the provider, the id and the name.
abbrev pub server_of : Deployment → Provider × (Text × Text)
server_of r = (r.provider, (r.provider_instance_id, r.provider_resource_name))

-- The server that a run has.
abbrev pub own_server : RunFacts → Provider × (Text × Text)
own_server s = (s.provider, (s.prov_instance_id, s.resource_name))

-- A run that goes on from a record: the server that was created in it, if any, what it knows at the write for the
-- box, and its writes after that.
pub record Run : Type 0 where
  pub instance_ref : Option InstanceRef
  pub facts : RunFacts
  pub later : List RecordWrite

-- A write that comes after the one for the box.
abbrev pub IsLater : RecordWrite → Type 0
IsLater (agent_paired s) = Unit
IsLater (released s) = Unit
IsLater (finalized s) = Unit
IsLater (failure_noted e) = Unit
IsLater _ = ⊥

abbrev write_each : List RecordWrite → Deployment → Deployment
write_each [] r = r
write_each (w ∷ ws) r = write_each ws (write_record w r)

abbrev write_instance : Option InstanceRef → Deployment → Deployment
write_instance none r = r
write_instance (some ref) r = write_record (instance_created ref) r

-- The record after a run that went on from it.
abbrev pub redeploy : Deployment → Run → Deployment
redeploy o run = write_each run.later (
    write_record (box_recorded (record (run.facts) { prior = some o }))
      (write_instance run.instance_ref o))

abbrev pub redeploy_all : Deployment → List Run → Deployment
redeploy_all o [] = o
redeploy_all o (run ∷ runs) = redeploy_all (redeploy o run) runs

-- A run for a provider that creates servers has the id or the name of its server.
abbrev pub IsProper : Run → Type 0
IsProper run =
    ((creates_infrastructure run.facts.provider ≡ false)
      ⊎ (not (is_nil run.facts.prov_instance_id && is_nil run.facts.resource_name) ≡ true))
    × All IsLater run.later

-- The server of the last run for a provider that creates servers, or the one before all of them.
abbrev pub last_created : Provider × (Text × Text) → List Run → Provider × (Text × Text)
last_created server [] = server
last_created server (run ∷ runs) =
    last_created
      (if creates_infrastructure run.facts.provider then own_server run.facts else server) runs

-- The server and the time of creation.
abbrev origin_of : Deployment → (Provider × (Text × Text)) × ℕ
origin_of r = (server_of r, r.created_at)

abbrev handle_in : Provider × (Text × Text) → Bool
handle_in server = creates_infrastructure server.0 && not (is_nil server.1.0 && is_nil server.1.1)
