-- ===== src/Network/Accept.antt =====
-- network.go: `RunServer`. What the listening socket does is given: whether it can listen, and what each call of
-- `Accept` returns, a connection or an error. `spawned` are the clients whose `handleClient` is started.
use netorcai.Prelude.{
  ℕ, ◌+◌, ◌-◌, ◌<◌, ltb, if◌then◌else◌, lt→ltb, ◌≡◌, ap, ◌∙◌, List, [], ◌∷◌, ◌++◌, map, Bool, true,
  false, length, arith,
}
use mathlib.Core.List.{append_assoc, append-nil}
use netorcai.Outcome.{Outcome, returns, panics, ◌>>=◌, Chan, send}
use netorcai.State.{ClientId, Client, unlogged, Reason}
use netorcai.Outcome.{make_chan}

pub data Accept : Type 0 where
  connection : ClientId → Accept
  accept_failed : Accept

-- A new client with its channel `canTerminate`.
pub record Accepted : Type 0 where
  pub client : Client
  pub can_terminate : Chan Reason

pub record Server : Type 0 where
  pub spawned : List Accepted
  pub wait_group : ℕ
  pub exit : Chan ℕ

unfoldable pub new_client : ClientId → Accepted
new_client conn = record {
  client = record { conn = conn; nickname = ""; state = unlogged };
  can_terminate = make_chan 1;
}

-- `WaitGroup.Done()`, which panics if the counter gets negative.
unfoldable pub wait_group_done : Server → Outcome Server
wait_group_done s =
    if ltb 0 s.wait_group then returns (record s { wait_group = s.wait_group - 1 }) else panics

-- `onexit <- 1`, `return`, and the deferred `WaitGroup.Done()`.
leave_server : Server → Outcome Server
unfolding wait_group_done
leave_server s = do exit ← send 1 s.exit; wait_group_done (record s { exit = exit })

-- The state when the calls of `Accept` are used up, or when one has failed.
accept_loop : List Accept → Server → Outcome Server
unfolding new_client leave_server
accept_loop [] s = returns s
accept_loop (accept_failed ∷ _) s = leave_server s
accept_loop (connection conn ∷ as_) s =
    accept_loop as_
      (record s { spawned = s.spawned ++ (new_client conn ∷ []); wait_group = s.wait_group + 1 })

unfoldable pub run_server : Bool → List Accept → Server → Outcome Server
unfolding accept_loop leave_server
run_server false as_ s = leave_server s
run_server true as_ s = accept_loop as_ s

-- Connections and then an error.
pub failing_after : List ClientId → List Accept → List Accept
failing_after [] later = accept_failed ∷ later
failing_after (conn ∷ conns) later = connection conn ∷ failing_after conns later

loop-failing_after :
    (conns : List ClientId) (later : List Accept) (s : Server)
    → s.exit ≡ make_chan 1
    → 0 < s.wait_group
    → accept_loop (failing_after conns later) s
      ≡ returns (record {
        spawned = s.spawned ++ map new_client conns;
        wait_group = s.wait_group + length conns - 1;
        exit = record { capacity = 1; queue = 1 ∷ [] };
      })
unfolding accept_loop failing_after leave_server wait_group_done
loop-failing_after [] later s free counted =
    rw (free, lt→ltb 0 s.wait_group counted, append-nil s.spawned)
      (ap
        (λ n. returns (record {
          spawned = s.spawned;
          wait_group = n;
          exit = record { capacity = 1; queue = 1 ∷ [] };
        }))
        (omega arith))
loop-failing_after (conn ∷ conns) later s free counted =
    let e =
      loop-failing_after conns later
        (record s { spawned = s.spawned ++ (new_client conn ∷ []); wait_group = s.wait_group + 1 })
        free (omega arith) in
    e
    ∙ ap
        (λ xs. returns (record {
          spawned = xs;
          wait_group = s.wait_group + 1 + length conns - 1;
          exit = record { capacity = 1; queue = 1 ∷ [] };
        }))
        (append_assoc s.spawned (new_client conn ∷ []) (map new_client conns))
    ∙ ap
        (λ n. returns (record {
          spawned = s.spawned ++ map new_client (conn ∷ conns);
          wait_group = n;
          exit = record { capacity = 1; queue = 1 ∷ [] };
        }))
        (omega arith)

-- If the channel `onexit` is empty and the wait group counts the server: when a call of `Accept` fails, every connection before it, in order, has a client of its own
-- that is not logged in and has no order to terminate, no later one has, the exit code 1 is handed over, and the wait group counts
-- these clients and no longer the server.
pub run_server-failing_after :
    (conns : List ClientId) (later : List Accept) (s : Server)
    → s.exit ≡ make_chan 1
    → 0 < s.wait_group
    → run_server true (failing_after conns later) s
      ≡ returns (record {
        spawned = s.spawned ++ map new_client conns;
        wait_group = s.wait_group + length conns - 1;
        exit = record { capacity = 1; queue = 1 ∷ [] };
      })
unfolding run_server
run_server-failing_after conns later s free counted = loop-failing_after conns later s free counted
