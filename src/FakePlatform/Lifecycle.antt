-- ===== src/FakePlatform/Lifecycle.antt =====
-- fake_platform_server/server.go and test_main.go: the start and the stop of the server's HTTP
-- server. That server is a parameter: what the channel of its errors has at each poll, by the port
-- and what has been done before, and what its `Close` returns.
use azure_pipelines_k8s_agen.Prelude.{
  ℕ, zero, suc, ◌*◌, ℤ, pos, negsuc, Bool, true, false, List, [], ◌∷◌, ◌++◌, Option, none, some,
  ◌==◌, if◌then◌else◌,
}
use azure_pipelines_k8s_agen.Text.{Text, codes}
use azure_pipelines_k8s_agen.GoMap.{GoMap}
use azure_pipelines_k8s_agen.Go.{Result, ok, err, Go, GoError, message, return, fail, crash, ◌>>◌}
use azure_pipelines_k8s_agen.FakeAgent.Integers.{decimal_int}
use azure_pipelines_k8s_agen.FakePlatform.{Server, new_server, create_pool, add_job}

-- What is done besides the state of the server; times are in nanoseconds.
pub data Act : Type 0 where
  listen : Text → Act
  sleep : ℕ → Act
  close : Act

-- `server` stands for the fields that the tests and the handlers use; `address` is `server.Addr` of
-- the code, and the last list is what has been done, the latest first.
pub record Host : Type 0 where
  pub server : Server
  pub address : Text
  pub is_stopped : Bool
  pub acts : List Act

pub record HttpServer : Type 0 where
  pub early_exit : List Act → Option GoError
  pub closed : List Act → Option GoError

abbrev pub default_port : ℤ
default_port = pos 8181

abbrev pub millisecond : ℕ
millisecond = 1000000

abbrev pub second : ℕ
second = 1000000000

abbrev pub new_host : Host
new_host = record { server = new_server; address = []; is_stopped = false; acts = [] }

abbrev is_zero : ℤ → Bool
is_zero (pos n) = n == 0
is_zero (negsuc n) = false

act : Act → Go Host (Unit {0})
act a h = (ok tt, record h { acts = a ∷ h.acts })

set_address : Text → Go Host (Unit {0})
set_address address h = (ok tt, record h { address = address })

set_server : Server → Go Host (Unit {0})
set_server server h = (ok tt, record h { server = server })

error_or_nil : Option GoError → Go Host (Unit {0})
error_or_nil none = return tt
error_or_nil (some e) = fail e

module _ (http : HttpServer) where
  -- So many turns of the loop that polls the channel of errors.
  poll : ℕ → Go Host (Unit {0})
  unfolding act
  poll zero h = (ok tt, h)
  poll (suc n) h =
      let rest = poll n in
      elim (http.early_exit h.acts) [
        | some e ↦ (err e, h)
        | none ↦ (do act (sleep (100 * millisecond)); rest) h
      ]

  unfoldable pub start : ℤ → Go Host (Unit {0})
  unfolding act set_address poll
  start port h =
      if h.is_stopped
      then (err (message (codes "cannot start server after it has been stopped")), h)
      else (do
        set_address (codes ":" ++ decimal_int (if is_zero port then default_port else port))
        act (listen (codes ":" ++ decimal_int (if is_zero port then default_port else port)))
        poll 5)
          h

  unfoldable pub stop : Go Host (Unit {0})
  unfolding error_or_nil
  stop h = error_or_nil (http.closed h.acts) (record h { is_stopped = true; acts = close ∷ h.acts })

  -- `if err != nil { panic(err) }`
  panic_on : Result (Unit {0}) → Go Host (Unit {0})
  panic_on (ok _) = return tt
  panic_on _ = crash

  unfoldable pub checked : Go Host (Unit {0}) → Go Host (Unit {0})
  unfolding panic_on
  checked m h = let (r, h') = m h in panic_on r h'

  -- `AddJob` of the server of the host.
  add_host_job : ℕ → ℕ → ℕ → ℕ → ℕ → GoMap Text → Go Host (Unit {0})
  add_host_job job_id pool_id duration start_delay finish_delay demands h =
      let outcome = add_job h.server job_id pool_id duration start_delay finish_delay demands in
      let h' = record h { server = outcome.server } in
      elim outcome.error [ none ↦ (ok tt, h') | some e ↦ (err (message e), h') ]

  create_host_pool : ℕ → Text → Go Host (Unit {0})
  create_host_pool pool_id pool_name h =
      (ok tt, record h { server = create_pool h.server pool_id pool_name })

  -- From the new server on.
  unfoldable pub main_test : Result (Unit {0}) × Host
  unfolding act add_host_job create_host_pool
  main_test =
      (do
        create_host_pool 1 (codes "Default")
        checked (start (pos 0))
        checked (add_host_job 2 1 (30 * second) 0 0 ((codes "foo", codes "bar") ∷ []))
        act (sleep (335 * second))
        checked stop)
        new_host
