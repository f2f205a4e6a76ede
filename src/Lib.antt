-- ===== src/Lib.antt =====
-- netorcai: a network orchestrator for games between programs. Players, special players,
-- visualizations and one game logic connect over TCP, log in, and exchange length-prefixed JSON
-- messages; netorcai runs the turns of the game between them.
--
-- The parts, and the files that model them (paths from the repository's root):
--
--   Prelude, Result, Outcome   shared notation. A Go `(value, error)` is a `Result`. A piece of a
--                              goroutine `returns`, `panics` (an index out of range, a nil pointer) or
--                              `blocks` (a send on a full channel, or a case that a `select` has not).
--   Float64, Json, Strconv     what `json.Unmarshal` yields; `float64` exactly, as signed dyadic
--                              numbers, infinities and NaN; strconv's parsers are a parameter.
--   ReadUtil                   readutil.go. A field of a wrong type, a missing field and a value out of
--                              bounds are errors, as in the code.
--   Version, Messages          version.go and messages.go: the regular expressions as scanners, and the
--                              four readers `readLoginMessage`, `readTurnAckMessage`,
--                              `readDoInitAckMessage` and `readDoTurnAckMessage`.
--   Network                    network.go: `sendMessage`, `readClientMessage`, `readClientMessages` over
--                              lists of bytes. The loop runs for as many messages as are received from
--                              its channel, which has no buffer. `Accept` is
--                              `RunServer`, given what `Listen` and `Accept` return.
--   GoClient                   client/go/client.go; `Connection` is `Connect` and `Disconnect`.
--   State                      the structs of control.go, control_pv.go and control_gl.go. Clients are
--                              identified by their connection; the `PlayerInformation` objects, which
--                              the clients and the game logic share by pointers, are a store.
--   Slices                     the swap with the last entry by which slices are shortened.
--   Login                      control.go: `handleClient`, `Kick`, `autostart`. `admit` is the critical
--                              section under the global mutex; `autostart` runs behind it, without it.
--   PlayerOrVisu               control_pv.go: `handlePlayerOrVisu`. A `step` is one round of its
--                              `select`; the event says which case was ready, how the write ended, and
--                              whether the send to the game logic goes through.
--   Departure                  control_pv.go: `KickLoggedPlayerOrVisu`.
--   GameLogic, GameInit        control_gl.go: `handleGameLogic`, from the start order to GAME_STARTS.
--                              `rand.Perm` is an argument that is a permutation.
--   GameControl                control_gl.go: what the loops of a running game share (`GameControl`,
--                              `Loop`), `gameLogicGameControlTimers` (`Timers`) and
--                              `gameLogicGameControlFast` (`Fast`). Sends to clients and writes to the
--                              game logic are outputs of a round. With timers a step is one statement
--                              of the loop or of a goroutine where both use `playerActions`, which
--                              they share without a lock; `Race` is about that. `Turns` says how many turns the outputs
--                              may hold, `Mailboxes` what the sends to clients wait for.
--   Outgoing                   the messages that are sent (messages.go): their JSON objects (`Wire`) and
--                              the functions that write them (`Sending`: `sendTurn` and the like).
--                              `Reading` is about the other end of the connection.
--   Lockstep                   the loop of the game logic in fast mode and the loop of one player with the
--                              two channels between them; everybody else is arbitrary.
--   Prompt                     prompt.go: `Lines` is the first half of `executor`, which takes a line
--                              apart; `Prompt` the second, which executes it. `Completer` and `Loop` are
--                              the rest. The simple prompt has no end: its loop runs for a given number of
--                              rounds.
--   Main                       cmd/netorcai/main.go: `initializeGlobalState`, and in `Launch`
--                              `setupLogging` and `mainReturnWithCode`.
--   Cleanup                    control.go: `Cleanup`, and the two loops that wait for its order.
--   Mutex                      who holds the global mutex, and whom the game logic waits for, while a
--                              game begins and clients leave, up to the first turn in fast mode.
--   Server                     the shared state over the life of the program: logins, departures,
--                              automatic starts, typed lines, and what the game logic and the
--                              players do with its channels (`GameLogic/Traffic`), in any order.
--   Lobby                      what that comes to for an observer who is told who is in, and no more:
--                              clients up to their order, limits, and whether a game runs.
--
-- The integers of the program are `int` on a 64-bit machine; the counts here are lengths of lists and
-- numbers that the code bounds by 65535 or less, so they are modelled without wrap-around. The sizes of
-- frames are `uint32` and keep it.
--
-- Not modelled: the sockets themselves, what is logged, docopt, the signals, go-prompt, the text that
-- `json.Marshal` makes of an object (only which values it refuses), and the time that sleeps take.
-- Outside `Mutex` the global mutex is not a state: what runs under it is one step. How a write to a
-- socket ends is an argument of the functions: any error, or none.
pub mod Prelude
pub mod Result
pub mod Float64
pub mod Json
pub mod Strconv
pub mod ReadUtil
pub mod Version
pub mod Messages
pub mod Network
pub mod GoClient
pub mod Lobby
pub mod Outcome
pub mod Slices
pub mod State
pub mod Login
pub mod Departure
pub mod Outgoing
pub mod PlayerOrVisu
pub mod GameLogic
pub mod GameControl
pub mod Lockstep
pub mod GameInit
pub mod Prompt
pub mod Main
pub mod Cleanup
pub mod Mutex
pub mod Server
pub mod Tests
