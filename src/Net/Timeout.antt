-- ===== src/Net/Timeout.antt =====
-- How long a TCP connection of src/kernel/net.c waits for an acknowledgement that does not come.
use sistem_operasi.Base.{ℕ, ◌<◌, ◌≤◌, ◌≡◌, true, List, [], ◌∷◌}
use sistem_operasi.Net.{TcpState, Conn}
use sistem_operasi.Net.Timer.{elapsed, tick_conn}

-- The connection after the timer has run at each of the times, with no packet in between.
unfoldable pub ticks : List ℕ → Conn → Conn
ticks [] c = c
ticks (now ∷ ts) c = ticks ts (tick_conn now c).0

-- Each time is TCP_RTO behind the one before, at least.
abbrev pub Spaced : ℕ → List ℕ → Type 0
Spaced since [] = Unit {0}
Spaced since (now ∷ ts) = (200 ≤ elapsed now since) × Spaced now ts

-- The connection waits for the acknowledgement of data that it has sent `n` times again, last at `t`.
pub record Waits (c : Conn) (n t : ℕ) : Type 0 where
  pub in_use : c.used ≡ true
  pub open_state : c.state ≡ TcpState.established
  pub unacked : 0 < c.tx_len
  pub count : c.retrans_count ≡ n
  pub last : c.retrans_tick ≡ t
