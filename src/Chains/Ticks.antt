-- ===== src/Chains/Ticks.antt =====
-- Run of each watcher, in internal/chains/evm/watcher.go, tron/watcher.go and ton/watcher.go: pollOnce
-- on every tick until the context ends.
use frpay.Prelude.{Bool, true, false, List, [], ◌∷◌}
use frpay.Store.{Database}

-- A tick: what the poll meets, and what other goroutines have done to the database before it.
pub record Tick (D A : Type 0) : Type 0 where
  pub others : Database D → Database D
  pub answers : A

module _ {D A W : Type 0} (poll_once : A → W → Database D → W × Database D) where
  unfoldable pub on_ticks : List (Tick D A) → W → Database D → W × Database D
  on_ticks [] w db = (w, db)
  on_ticks (tick ∷ ticks) w db =
      let (w', db') = poll_once tick.answers w (tick.others db) in on_ticks ticks w' db'

  -- A watcher that is not enabled only waits.
  unfoldable pub run : Bool → List (Tick D A) → W → Database D → W × Database D
  run true ticks w db = on_ticks ticks w db
  run false ticks w db = (w, db)
