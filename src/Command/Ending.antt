-- ===== src/Command/Ending.antt =====
-- How a command of src/client/command/ runs on its client. `process::exit` leaves the command, so it is
-- the failure of an action here, with the exit status as the error.
use rust_mq.Base.{ℕ, ◌+◌, ◌/◌, ◌%◌, ltb, [], ◌∷◌, ◌++◌, suc, zero, if◌then◌else◌}
use rust_mq.Outcome.{Outcome, done, failed, panicked, stuck, Action}
use rust_mq.Mqtt3.Bytes.{Text}

abbrev pub Script : Type 0 → Type 0 → Type 0
Script S A = Action ℕ S A

abbrev pub exit : {S A : Type 0} → ℕ → Script S A
exit code s = failed code s

-- `expect` and `unwrap` on the result of a call.
abbrev pub expected : {E S A : Type 0} → Outcome E S A → Outcome ℕ S A
expected (done a s) = done a s
expected (failed e s) = panicked
expected panicked = panicked
expected stuck = stuck

-- `let _ =` on the result of a call: the state after it.
abbrev pub ignored : {E S A : Type 0} → Outcome E S A → Outcome ℕ S (Unit {0})
ignored (done a s) = done tt s
ignored (failed e s) = done tt s
ignored panicked = panicked
ignored stuck = stuck

-- The decimal digits of a number, with as much fuel as it can have digits.
unfoldable pub decimal : ℕ → ℕ → Text
decimal zero n = []
decimal (suc fuel) n =
    let front = decimal fuel (n / 10) in
    if ltb n 10 then (b'0' + n) ∷ [] else front ++ (b'0' + n % 10) ∷ []

-- `format!("{}:{}", address, port)`, for a port of 16 bits.
unfoldable pub socket_address : Text → ℕ → Text
unfolding decimal
socket_address address port = address ++ b':' ∷ decimal 5 port
