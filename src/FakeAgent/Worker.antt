-- ===== src/FakeAgent/Worker.antt =====
-- fake_agent/utils/fake_agent_utils.go: the copy of the worker's binary, and its process.
use azure_pipelines_k8s_agen.Prelude.{ℕ, Option}
use azure_pipelines_k8s_agen.Text.{Text, codes}
use azure_pipelines_k8s_agen.Go.{Result, ok, err, panic, return, lift, attempt, ◌>>=◌, ◌>>◌}
use azure_pipelines_k8s_agen.FakeAgent.Machine.{Event, Machine, Action, occur}

module _ (machine : Machine) where
  -- A relative path with no dots is its own `filepath.Join(".", relativeDest)`.
  copy_contents : Text → Text → Action (Unit {0})
  copy_contents absolute_source relative_dest = do
    occur (Event.file_open absolute_source) (λ events. machine.open_file events absolute_source)
    occur (Event.file_create relative_dest) (λ events. machine.create_file events relative_dest)
    occur (Event.file_copy absolute_source relative_dest)
        (λ events. machine.copy_file events absolute_source relative_dest)
    occur (Event.file_sync relative_dest) (λ events. machine.sync_file events relative_dest)
    mode ←
        occur (Event.file_mode absolute_source) (λ events. machine.file_mode events absolute_source)
    occur (Event.file_chmod relative_dest mode) (λ events. machine.chmod events relative_dest mode)

  unless_present : Text → Text → Result (Unit {0}) → Action (Unit {0})
  unfolding copy_contents
  unless_present absolute_source relative_dest (ok _) = return tt
  unless_present absolute_source relative_dest (err _) = copy_contents absolute_source relative_dest
  unless_present absolute_source relative_dest panic = lift panic

  unfoldable pub copy_file_if_not_exists : Text → Text → Action (Unit {0})
  unfolding unless_present
  copy_file_if_not_exists absolute_source relative_dest = do
    present ←
        attempt
          (occur (Event.file_stat relative_dest) (λ events. machine.stat events relative_dest))
    unless_present absolute_source relative_dest present

  unfoldable pub copy_worker_process_binary : Action (Unit {0})
  unfolding copy_file_if_not_exists
  copy_worker_process_binary =
      copy_file_if_not_exists (machine.getenv (codes "WORKER_BINARY")) (codes "Agent.Worker")

  unfoldable pub start_worker_process : Action ℕ
  start_worker_process =
      occur (Event.process_start (codes "./Agent.Worker"))
        (λ events. machine.start_process events (codes "./Agent.Worker"))

  -- `proc.Kill()`
  unfoldable pub kill_process : Option ℕ → Action (Unit {0})
  kill_process proc = occur (Event.process_kill proc) (λ events. machine.kill events proc)
