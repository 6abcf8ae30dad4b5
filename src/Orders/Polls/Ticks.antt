-- ===== src/Orders/Polls/Ticks.antt =====
-- A watcher that runs for a while, among the other goroutines.
use frpay.Prelude.{Bool, true, false, List, [], ◌∷◌, All}
use frpay.Decimal.{Decimals}
use frpay.Store.{Database}
use frpay.Chains.Ticks.{Tick, on_ticks, run}
use frpay.Orders.Lifecycle.{Later-preorder}
use frpay.Orders.Runs.{Persists, of_Later, Persists-trans}

-- What the other goroutines do keeps the orders, too.
abbrev pub IsKept : {D A : Type 0} ⦃dec : Decimals D⦄ → Tick D A → Type 0
IsKept tick = (db : Database _) → Persists db (tick.others db)

module _ {D A W : Type 0} ⦃dec : Decimals D⦄ (poll_once : A → W → Database D → W × Database D)
    (keeps : (a : A) (w : W) (db : Database D) → Persists db (poll_once a w db).1) where
  on_ticks-Persists :
      (ticks : List (Tick D A)) (w : W) (db : Database D)
      → All IsKept ticks
      → Persists db (on_ticks poll_once ticks w db).1
  unfolding on_ticks
  on_ticks-Persists [] w db h = of_Later (Later-preorder.reflexive db)
  on_ticks-Persists (tick ∷ ticks) w db h = Persists-trans db _ _ (h.0 db) (
      Persists-trans (tick.others db) _ _ (keeps tick.answers w (tick.others db))
        (on_ticks-Persists ticks _ _ h.1))

  pub run-Persists :
      (enabled : Bool) (ticks : List (Tick D A)) (w : W) (db : Database D)
      → All IsKept ticks
      → Persists db (run poll_once enabled ticks w db).1
  unfolding run
  run-Persists true ticks w db h = on_ticks-Persists ticks w db h
  run-Persists false ticks w db h = of_Later (Later-preorder.reflexive db)
