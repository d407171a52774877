-- ===== src/Cloud.antt =====
-- azext_edge/edge/util/az_client.py: the management clients as the commands use them, and the loops
-- that wait for long-running operations. The clients are packages that are not in the repository's
-- own code: they are a parameter, a machine with a state of its own.
pub mod Waiting
pub mod Scope
pub mod Quiet
use azure_iot_ops_cli_extens.Base.{
  ℕ, zero, suc, String, Bool, true, false, Option, List, [], ◌∷◌, ◌++◌,
}
use azure_iot_ops_cli_extens.Base.Exec.{Outcome, returned, Exec}
use azure_iot_ops_cli_extens.Workflow.{Display}

-- A request that starts a deletion: by resource id and API version, or of a cluster extension by
-- resource group, cluster and extension name.
pub data Request : Type 0 where
  by_id : String → String → Request
  extension : String → Option String → String → Request

-- The requests `Q` start long-running operations. A poller asks the service when `done` is called;
-- `result` raises if the operation failed. `sleep` lets time pass.
pub record Cloud (Q : Type 0) : Type 1 where
  pub World : Type 0
  pub Poller : Type 0
  pub begin_delete : Q → World → Outcome Poller × World
  pub done : Poller → World → Bool × World
  pub result : Poller → World → Outcome (Unit {0}) × World
  pub sleep : World → World

abbrev pub poll_retries : ℕ
poll_retries = 240

-- A running command: the world outside, the step table, and the requests sent so far.
pub record Run {Q : Type 0} (C : Cloud Q) : Type 0 where
  pub world : C.World
  pub display : Display
  pub requests : List Q

module _ {Q : Type 0} (C : Cloud Q) where
  -- `begin_delete_by_id` and `begin_delete`
  unfoldable pub begin_delete : Q → Exec (Run C) C.Poller
  begin_delete q s =
      let (o, w) = C.begin_delete q s.world in
      (o, record { world = w; display = s.display; requests = s.requests ++ q ∷ [] })

  -- `poller.result()`, which may block without a limit, as one answer of the service.
  unfoldable pub poll_result : C.Poller → Exec (Run C) (Unit {0})
  poll_result p s =
      let (o, w) = C.result p s.world in
      (o, record { world = w; display = s.display; requests = s.requests })

  -- The loop of `wait_for_terminal_state`, by the retries left, and its `poller.result()`.
  unfoldable pub wait_state : ℕ → C.Poller → Exec (Run C) (Unit {0})
  unfolding poll_result
  wait_state zero p s = poll_result p s
  wait_state (suc left) p s =
      let (b, w) = C.done p s.world in
      elim b [
        | true ↦ poll_result p (record { world = w; display = s.display; requests = s.requests })
        | false ↦
            wait_state left p
              (record { world = C.sleep w; display = s.display; requests = s.requests })
      ]

  unfoldable pub wait_for_terminal_state : C.Poller → Exec (Run C) (Unit {0})
  unfolding wait_state
  wait_for_terminal_state = wait_state poll_retries

  -- `all(poller.done() for poller in pollers)`, which stops at the first that is not done.
  unfoldable pub all_done : List C.Poller → C.World → Bool × C.World
  all_done [] w = (true, w)
  all_done (p ∷ ps) w =
      let (b, w') = C.done p w in elim b [ true ↦ all_done ps w' | false ↦ (false, w') ]

  unfoldable pub wait_states : ℕ → List C.Poller → C.World → C.World
  unfolding all_done
  wait_states zero ps w = w
  wait_states (suc left) ps w =
      let (b, w') = all_done ps w in elim b [ true ↦ w' | false ↦ wait_states left ps (C.sleep w') ]

  -- `wait_for_terminal_states`: no result is read.
  unfoldable pub wait_for_terminal_states : List C.Poller → Exec (Run C) (List C.Poller)
  unfolding wait_states
  wait_for_terminal_states ps s = (
    returned ps,
    record {
      world = wait_states poll_retries ps s.world;
      display = s.display;
      requests = s.requests;
    },
  )
