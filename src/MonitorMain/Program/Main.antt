-- ===== src/MonitorMain/Program/Main.antt =====
-- monitor/main.go: `main` as a whole, when no goroutine takes a step in between, and that this is one
-- of the runs of the program.
use eapol_operator.Base.{ℕ, ◌<◌, List, Str, Option, none, some}
use eapol_operator.Host.{Host, Trace}
use eapol_operator.Hostap.Monitor.{Monitor}
use eapol_operator.Hostap.Start.Attach.{IsTimeout, answer}
use eapol_operator.MonitorMain.Startup.{Environment, Startup, exited, prepared, startup}
use eapol_operator.MonitorMain.Shutdown.{start_monitors, shutdown}
use eapol_operator.MonitorMain.Program
use eapol_operator.MonitorMain.Program.{Slot, Program, begins, Runs}

module _ (h : Host) where
  serve : List Str → Option (List Monitor) × Trace → Option Trace
  serve ifaces (none, t) = none
  serve ifaces (some monitors, t) = some (shutdown h monitors ifaces t)

  run_from : ℕ → Startup × Trace → Option Trace
  unfolding serve
  run_from n (exited, t) = some t
  run_from n (prepared ifaces, t) = serve ifaces (start_monitors h n ifaces t)

  -- All of `main`, with a signal that has come when the monitors have started. Each attaching may
  -- write this often; `none` is left where one of them has still not ended.
  unfoldable pub run_main : Environment → ℕ → Trace → Option Trace
  unfolding run_from
  run_main env n t = run_from n (startup h env t)

  -- Where the program is when it has exited with these calls made.
  abbrev pub Exits : List Str → Trace → Trace → Type 0
  Exits ifaces t v =
      (slots : List Slot) × Runs h ifaces (begins h ifaces t)
        (record { phase = Program.exited; slots = slots; calls = v })

  -- Whenever `ATTACH` is written, one of the first `n` writes does not time out.
  abbrev pub IsAnswered : ℕ → Type 0
  IsAnswered n = (t : Trace) → (i : ℕ) × (i < n) × (IsTimeout h (answer h i t) → ⊥)
