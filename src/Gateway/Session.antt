-- ===== src/Gateway/Session.antt =====
-- include/ome/session.hpp: one client's session, with the ids of its live orders.
use order_matching_machine.Prelude.{
  ℕ, zero, suc, ◌+◌, ◌≡◌, Bool, true, false, not, ◌&&◌, ◌||◌, List, [], ◌∷◌, arith, length, leb,
  ◌==◌, if◌then◌else◌,
}
use order_matching_machine.Prelude.Words.{sub64}

pub record SessionConfig : Type 0 where
  pub heartbeat_interval_ns : ℕ
  pub timeout_ns : ℕ

pub data SessionState : Type 0 where
  connected dead : SessionState

-- `live_orders` is a hash set: a list without duplicates.
pub record Session : Type 0 where
  pub id : ℕ
  pub cfg : SessionConfig
  pub state : SessionState
  pub last_inbound_ns : ℕ
  pub last_heartbeat_sent_ns : ℕ
  pub live_orders : List ℕ

abbrev pub new_session : ℕ → ℕ → SessionConfig → Session
new_session id now cfg = record {
  id = id;
  cfg = cfg;
  state = connected;
  last_inbound_ns = now;
  last_heartbeat_sent_ns = now;
  live_orders = [];
}

unfoldable pub alive : Session → Bool
alive s = elim s.state [ connected ↦ true | dead ↦ false ]

unfoldable pub on_inbound : Session → ℕ → Session
on_inbound s now = record s { last_inbound_ns = now }

unfoldable pub heartbeat_due : Session → ℕ → Bool
heartbeat_due s now =
    alive s && leb s.cfg.heartbeat_interval_ns (sub64 now s.last_heartbeat_sent_ns)

unfoldable pub on_heartbeat_sent : Session → ℕ → Session
on_heartbeat_sent s now = record s { last_heartbeat_sent_ns = now }

unfoldable pub timed_out : Session → ℕ → Bool
timed_out s now = alive s && leb s.cfg.timeout_ns (sub64 now s.last_inbound_ns)

unfoldable pub mark_dead : Session → Bool × Session
mark_dead s = elim s.state [ dead ↦ (false, s) | connected ↦ (true, record s { state = dead }) ]

unfoldable pub member : ℕ → List ℕ → Bool
member k [] = false
member k (x ∷ xs) = x == k || member k xs

unfoldable pub remove : ℕ → List ℕ → List ℕ
remove k [] = []
remove k (x ∷ xs) = let rest = remove k xs in if x == k then rest else x ∷ rest

unfoldable pub has_order : Session → ℕ → Bool
has_order s k = member k s.live_orders

unfoldable pub register_order : Session → ℕ → Bool × Session
register_order s k =
    if has_order s k then (false, s) else (true, record s { live_orders = k ∷ s.live_orders })

unfoldable pub forget_order : Session → ℕ → Bool × Session
forget_order s k = (has_order s k, record s { live_orders = remove k s.live_orders })

abbrev pub live_order_count : Session → ℕ
live_order_count s = length s.live_orders

-- What happens to a session, in any order: traffic in and out, orders coming and going, and death.
pub data SessionStep (s : Session) : Bool → Session → Type 0 where
  inbound : (now : ℕ) → SessionStep s false (on_inbound s now)
  heartbeat : (now : ℕ) → SessionStep s false (on_heartbeat_sent s now)
  register : (k : ℕ) → SessionStep s false (register_order s k).1
  forget : (k : ℕ) → SessionStep s false (forget_order s k).1
  died : SessionStep s (mark_dead s).0 (mark_dead s).1

-- The number of steps in which `mark_dead` returned true.
pub data SessionRun (s : Session) : ℕ → Session → Type 0 where
  begun : SessionRun s zero s
  quiet : {n : ℕ} {t u : Session} → SessionRun s n t → SessionStep t false u → SessionRun s n u
  notified :
      {n : ℕ} {t u : Session} → SessionRun s n t → SessionStep t true u → SessionRun s (suc n) u

abbrev deaths : Session → ℕ
deaths s = if alive s then 0 else 1

abbrev told : Bool → ℕ
told b = if b then 1 else 0

step-deaths : {s t : Session} {b : Bool} → SessionStep s b t → deaths t ≡ deaths s + told b
unfolding alive on_inbound on_heartbeat_sent register_order forget_order mark_dead
step-deaths {s = s} (inbound now) = omega arith
step-deaths {s = s} (heartbeat now) = omega arith
step-deaths {s = s} (register k) = ground arith
step-deaths {s = s} (forget k) = omega arith
step-deaths {s = s} died = ground arith

-- Whatever happens to a new session, `mark_dead` returns true exactly once if the session is dead at
-- the end, and never if it is alive.
pub run-deaths :
    {s t : Session} {n : ℕ} → SessionRun s n t → alive s ≡ true → n ≡ (if alive t then 0 else 1)
run-deaths begun h = ground arith
run-deaths (quiet {t = t} {u = u} r e) h = ground (arith, run-deaths r h, step-deaths e)
run-deaths (notified {t = t} {u = u} r e) h = ground (arith, run-deaths r h, step-deaths e)

pub member-remove : (j k : ℕ) (xs : List ℕ) → member j (remove k xs) ≡ (not (k == j) && member j xs)
unfolding member remove
member-remove j k [] = ground arith
member-remove j k (x ∷ xs) = ground (arith, member-remove j k xs)
