-- ===== src/Center/Events.antt =====
-- The list of idle connections over the life of the center: its order, and what the timer closes.
use uctool.Common.{
  ℕ, ◌+◌, ◌*◌, ◌≤◌, ◌≡◌, refl, false, ◌&&◌, List, [], ◌∷◌, ◌++◌, All, All-append, ◌==◌,
  if◌then◌else◌, arith,
}
use uctool.Center.Idle.{
  Entry, Action, micros, is_idle, connection_up, connection_down, close_actions, on_timer,
}

-- The times of the list do not fall.
abbrev pub IsOrdered : List Entry → Type 0
IsOrdered [] = Unit
IsOrdered (e ∷ es) = All (λ f. e.last_receive_time ≤ f.last_receive_time) es × IsOrdered es

-- What the timer is meant to do: close every connection that lives, is up and is idle.
abbrev pub all_closes : ℕ → ℕ → List Entry → List Action
all_closes idle_seconds now [] = []
all_closes idle_seconds now (e ∷ es) =
    (if e.alive && is_idle idle_seconds now e then close_actions e else [])
    ++ all_closes idle_seconds now es

none_idle :
    (idle_seconds now t : ℕ) (es : List Entry)
    → now ≤ t + idle_seconds * micros
    → All (λ f. t ≤ f.last_receive_time) es
    → all_closes idle_seconds now es ≡ []
unfolding is_idle
none_idle idle_seconds now t [] h a = refl
none_idle idle_seconds now t (e ∷ es) h a = ground (arith, none_idle idle_seconds now t es h a.1)

-- The timer stops at the first connection that is young, and still closes exactly the connections
-- that live, are up and are idle: on a list in order none of them stands behind it.
pub on_timer-all_closes :
    (idle_seconds now : ℕ) (es : List Entry)
    → IsOrdered es
    → (on_timer idle_seconds now es).1 ≡ all_closes idle_seconds now es
unfolding on_timer
on_timer-all_closes idle_seconds now [] o = refl
on_timer-all_closes idle_seconds now (e ∷ es) o = ground (
  arith,
  on_timer-all_closes idle_seconds now es o.1,
  none_idle idle_seconds now e.last_receive_time es,
)

unfoldable pub From : ℕ → List Entry → Type 0
From t es = All (λ f. t ≤ f.last_receive_time) es

From-weaken : (t u : ℕ) (es : List Entry) → t ≤ u → From u es → From t es
unfolding From
From-weaken t u [] h a = tt
From-weaken t u (e ∷ es) h a = (omega arith, From-weaken t u es h a.1)

pub on_timer-From :
    (idle_seconds now t : ℕ) (es : List Entry)
    → t ≤ now
    → From t es
    → From t (on_timer idle_seconds now es).0
unfolding on_timer From
on_timer-From idle_seconds now t [] h a = tt
on_timer-From idle_seconds now t (e ∷ es) h a =
    ground (arith, on_timer-From idle_seconds now t es h a.1)

pub on_timer-IsOrdered :
    (idle_seconds now : ℕ) (es : List Entry)
    → IsOrdered es
    → IsOrdered (on_timer idle_seconds now es).0
unfolding on_timer From is_idle
on_timer-IsOrdered idle_seconds now [] o = tt
on_timer-IsOrdered idle_seconds now (e ∷ es) o = ground (
  arith,
  on_timer-IsOrdered idle_seconds now es o.1,
  on_timer-From idle_seconds now e.last_receive_time es,
  on_timer-From idle_seconds now now es,
  From-weaken now e.last_receive_time es,
)

pub connection_down-From :
    (name t : ℕ) (es : List Entry) → From t es → From t (connection_down name es)
unfolding connection_down From
connection_down-From name t [] a = tt
connection_down-From name t (e ∷ es) a = ground (arith, connection_down-From name t es a.1)

pub connection_down-IsOrdered :
    (name : ℕ) (es : List Entry) → IsOrdered es → IsOrdered (connection_down name es)
unfolding connection_down From
connection_down-IsOrdered name [] o = tt
connection_down-IsOrdered name (e ∷ es) o =
    ground (
      arith,
      connection_down-IsOrdered name es o.1,
      connection_down-From name e.last_receive_time es,
    )

pub connection_up-IsOrdered :
    (name now : ℕ) (es : List Entry)
    → All (λ f. f.last_receive_time ≤ now) es
    → IsOrdered es
    → IsOrdered (connection_up name now es)
unfolding connection_up
connection_up-IsOrdered name now [] a o = ground arith
connection_up-IsOrdered name now (e ∷ es) a o = (
  All-append (λ f. e.last_receive_time ≤ f.last_receive_time) es _ o.0 (a.0, tt),
  connection_up-IsOrdered name now es a.1 o.1,
)

-- The weak pointers to a connection that is gone no longer lock.
unfoldable pub let_go : ℕ → List Entry → List Entry
let_go name [] = []
let_go name (e ∷ es) =
    (if e.name == name then record e { alive = false; connected = false } else e) ∷ let_go name es

-- The lists that the center can have at time `now`: it starts with none, the clock does not run
-- backwards, and connections come up, go down and are dropped, and the timer fires, in any order.
pub data Reachable (idle_seconds : ℕ) : ℕ → List Entry → Type 0 where
  starts : {now : ℕ} {es : List Entry} → es ≡ [] → Reachable idle_seconds now es
  waits :
      {now : ℕ} {es : List Entry} (before : ℕ)
      → before ≤ now
      → Reachable idle_seconds before es
      → Reachable idle_seconds now es
  comes_up :
      {now : ℕ} {es : List Entry} (name : ℕ) (old : List Entry)
      → es ≡ connection_up name now old
      → Reachable idle_seconds now old
      → Reachable idle_seconds now es
  goes_down :
      {now : ℕ} {es : List Entry} (name : ℕ) (old : List Entry)
      → es ≡ connection_down name old
      → Reachable idle_seconds now old
      → Reachable idle_seconds now es
  is_dropped :
      {now : ℕ} {es : List Entry} (name : ℕ) (old : List Entry)
      → es ≡ let_go name old
      → Reachable idle_seconds now old
      → Reachable idle_seconds now es
  ticks :
      {now : ℕ} {es : List Entry} (old : List Entry)
      → es ≡ (on_timer idle_seconds now old).0
      → Reachable idle_seconds now old
      → Reachable idle_seconds now es

unfoldable UpTo : ℕ → List Entry → Type 0
UpTo t es = All (λ f. f.last_receive_time ≤ t) es

abbrev IsSound : ℕ → List Entry → Type 0
IsSound now es = IsOrdered es × UpTo now es
