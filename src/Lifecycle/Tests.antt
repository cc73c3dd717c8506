-- ===== src/Lifecycle/Tests.antt =====
-- The lifecycle counters on a short run.
use somethingtrade.Prelude.{some}
use somethingtrade.Orderbook.Tests.{clocks, with_bridge}
use somethingtrade.Lifecycle.{WsLifecycleTracker, new_tracker, on_reconnect, on_sequence_gap}
use somethingtrade.Lifecycle.Counts.{IsCoherent, here, next, reconnect, gap, Reach-IsCoherent}

abbrev reconnected : WsLifecycleTracker
reconnected = (on_reconnect clocks (some with_bridge) new_tracker).0

Reach-IsCoherent_example : IsCoherent (on_sequence_gap reconnected)
Reach-IsCoherent_example =
    Reach-IsCoherent
      (next (next here (reconnect clocks (some with_bridge) new_tracker)) (gap reconnected))
