-- ===== src/Center/Idle.antt =====
-- The idle connections of ulordcenter.cc: `onConnection` and `onTimer` on the list of weak pointers.
-- An entry is what the program can ask of it: whether the pointer still locks, whether the connection
-- is up, and the time kept in its context (`lastReceiveTime`, in microseconds). The identity of an
-- entry stands for the list position that the context holds. muduo's `double` ages are exact here.
use uctool.Common.{
  ℕ, ◌+◌, ◌*◌, Bool, true, false, not, List, [], ◌∷◌, ◌++◌, ltb, ◌==◌, if◌then◌else◌,
}

pub record Entry : Type 0 where
  pub name : ℕ
  pub alive : Bool
  pub connected : Bool
  pub last_receive_time : ℕ

-- What the timer does to a connection: `shutdown`, behind which `connected()` is false, and
-- `forceCloseWithDelay` behind it.
pub data Action : Type 0 where
  shutdown force_close : ℕ → Action

abbrev pub micros : ℕ
micros = 1000000

-- `age > idleSeconds_`
unfoldable pub is_idle : ℕ → ℕ → Entry → Bool
is_idle idle_seconds now e = ltb (e.last_receive_time + idle_seconds * micros) now

-- `onConnection`, as the connection `name` comes up or goes down.
unfoldable pub connection_up : ℕ → ℕ → List Entry → List Entry
connection_up name now es =
    es ++ record { name = name; alive = true; connected = true; last_receive_time = now } ∷ []

unfoldable pub connection_down : ℕ → List Entry → List Entry
connection_down name [] = []
connection_down name (e ∷ es) = if e.name == name then es else e ∷ connection_down name es

abbrev pub close_actions : Entry → List Action
close_actions e = if e.connected then shutdown e.name ∷ force_close e.name ∷ [] else []

-- The loop of `onTimer`: the list afterwards, and what was done.
unfoldable pub on_timer : ℕ → ℕ → List Entry → List Entry × List Action
unfolding is_idle
on_timer idle_seconds now [] = ([], [])
on_timer idle_seconds now (e ∷ es) =
    let (rest, acts) = on_timer idle_seconds now es in
    if not e.alive
    then (rest, acts)
    else (if is_idle idle_seconds now e
        then (record e { connected = false } ∷ rest, close_actions e ++ acts)
        else (if ltb now e.last_receive_time
            then (record e { last_receive_time = now } ∷ rest, acts)
            else (e ∷ es, [])))
