-- ===== src/GameInit/Closes.antt =====
-- The last outputs of the start of a game, on every branch.
use netorcai.Prelude.{◌≡◌, List, [], ◌∷◌, ◌++◌, Option, none, some}
use netorcai.Result.{Result, ok, err, Error}
use netorcai.Messages.{MessageDoInitAck, read_do_init_ack_message}
use netorcai.Outgoing.{MessageGameStarts}
use netorcai.State.{
  message_before_start, game_logic_error, cannot_send_do_init, cannot_read_do_init_ack,
  invalid_do_init_ack, do_init_ack_timeout, ClientId, Reason,
}
use netorcai.GameControl.{Output, game_starts, kicks, exits}
use netorcai.GameControl.Loop.{loops, returns_now, waits_finition, Round}
use netorcai.GameInit.{
  Order, start, can_terminate, incoming, Answer, answer_can_terminate, answered, timeout, Begun,
}

-- The game logic is kicked for a reason, and the program gets the exit code 1.
abbrev pub Fails : Reason → Round Begun → Type 0
Fails reason r =
    (r.next ≡ waits_finition)
    × ((first : List Output) × (r.outputs ≡ first ++ (kicks reason ∷ exits 1 ∷ [])))

-- It is kicked for the reason of the order to terminate, and there is no exit code.
abbrev pub Ends : Reason → Round Begun → Type 0
Ends reason r =
    (r.next ≡ returns_now) × ((first : List Output) × (r.outputs ≡ first ++ (kicks reason ∷ [])))

-- The game begins, and the last output says so to the clients.
abbrev pub Opens : Round Begun → Type 0
Opens r =
    (b : Begun) × (r.next ≡ loops b)
    × (first : List Output) × (sends : List (ClientId × MessageGameStarts)) × (r.outputs
        ≡ first ++ (game_starts sends ∷ []))

-- What the content of a DO_INIT_ACK leads to.
abbrev pub ClosesRead : Result MessageDoInitAck → Round Begun → Type 0
ClosesRead (err e) r = Fails (invalid_do_init_ack e) r
ClosesRead (ok ack) r = Opens r

abbrev pub ClosesAnswer : Answer → Round Begun → Type 0
ClosesAnswer (answer_can_terminate reason) r = Ends reason r
ClosesAnswer (answered (err e)) r = Fails (cannot_read_do_init_ack e) r
ClosesAnswer (answered (ok content)) r = ClosesRead (read_do_init_ack_message content) r
ClosesAnswer timeout r = Fails do_init_ack_timeout r

abbrev pub ClosesSent : Option Error → Answer → Round Begun → Type 0
ClosesSent (some e) answer r = Fails (cannot_send_do_init e) r
ClosesSent none answer r = ClosesAnswer answer r

-- What each order, each outcome of the DO_INIT and each answer lead to.
abbrev pub Closes : Order → Option Error → Answer → Round Begun → Type 0
Closes (can_terminate reason) sent answer r = Ends reason r
Closes (incoming (ok content)) sent answer r = Fails message_before_start r
Closes (incoming (err e)) sent answer r = Fails (game_logic_error e) r
Closes start sent answer r = ClosesSent sent answer r
