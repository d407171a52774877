-- ===== src/Tests/Waits.antt =====
-- The wait for an operation that takes two sleeps.
use azure_iot_ops_cli_extens.Base.{ℕ, zero, suc, ◌≡◌, refl, true, false, [], ◌<◌, leb, arith}
use azure_iot_ops_cli_extens.Base.Exec.{returned}
use azure_iot_ops_cli_extens.Cloud.{Request, Cloud, Run, poll_result, wait_for_terminal_state}
use azure_iot_ops_cli_extens.Cloud.Waiting.{rounds, finds, at, wait_for_terminal_state-done}

abbrev slow_cloud : Cloud Request
slow_cloud = record {
  World = ℕ;
  Poller = ℕ;
  begin_delete = λ q w. (returned w, w);
  done = λ p w. (leb 2 w, w);
  result = λ p w. (returned tt, w);
  sleep = λ w. suc w;
}

abbrev slow_run : Run slow_cloud
slow_run = record {
  world = 0;
  display = record { title = ""; no_progress = true; steps = [] };
  requests = [];
}

slow_running : (i : ℕ) → i < 2 → finds slow_cloud 0 i 0 ≡ false
unfolding rounds
slow_running zero h = refl
slow_running (suc zero) h = refl
slow_running (suc (suc i)) h = ground (arith, h)

slow_done : finds slow_cloud 0 2 0 ≡ true
unfolding rounds
slow_done = refl

wait_for_terminal_state-done_example :
    wait_for_terminal_state slow_cloud 0 slow_run
    ≡ poll_result slow_cloud 0
        (at slow_cloud 0 slow_run (slow_cloud.done 0 (rounds slow_cloud 0 2 0)).1)
wait_for_terminal_state-done_example =
    wait_for_terminal_state-done slow_cloud 0 2 slow_run slow_running (ground arith) slow_done
