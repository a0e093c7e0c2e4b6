-- ===== src/Tests/GatewayRuns.antt =====
-- The write buffer and the session at concrete inputs.
use order_matching_machine.Prelude.{ℕ, ◌≡◌, refl, [], ◌∷◌, arith, drop, if◌then◌else◌}
use order_matching_machine.Gateway.WriteBuffer.{
  WriteBuffer, IsBuffer, unsent, append, consume, Queued, append-Queued, consume-unsent,
}
use order_matching_machine.Gateway.Session.{
  Session, new_session, alive, mark_dead, begun, quiet, notified, died, run-deaths,
}

-- Two of four bytes are sent, and the cap is five.
abbrev small_buffer : WriteBuffer
small_buffer = record { buf = 1 ∷ 2 ∷ 3 ∷ 4 ∷ []; pos = 2; capacity = 5 }

small_buffer-IsBuffer : IsBuffer small_buffer
small_buffer-IsBuffer = record { pos_le = omega arith; held_le = omega arith }

append-Queued_example :
    Queued small_buffer
      (5 ∷ 6 ∷ [])
      (append small_buffer (5 ∷ 6 ∷ [])).0
      (append small_buffer (5 ∷ 6 ∷ [])).1
append-Queued_example = append-Queued small_buffer small_buffer-IsBuffer (5 ∷ 6 ∷ [])

consume-unsent_example :
    (unsent (consume small_buffer 1) ≡ drop 1 (unsent small_buffer))
    × IsBuffer (consume small_buffer 1)
consume-unsent_example = consume-unsent small_buffer 1 small_buffer-IsBuffer

abbrev young_session : Session
young_session = new_session 1 0 (record { heartbeat_interval_ns = 5; timeout_ns = 15 })

abbrev ended_session : Session
ended_session = (mark_dead young_session).1

-- The session dies, and is found dead a second time.
run-deaths_example : ◌≡◌ {A = ℕ} 1 (if alive (mark_dead ended_session).1 then 0 else 1)
unfolding alive mark_dead
run-deaths_example = run-deaths {s = young_session} (quiet (notified begun died) died) refl
