-- ===== src/Orders/Phases.antt =====
-- The lifecycle of an order as the abstract machine of docs.md ("Order lifecycle"), which any
-- interleaving of statements refines.
use frpay.Prelude.{
  refl, List, [], ◌∷◌, map, Extends, All, String, ◌≡◌, Bool, true, false, Option, none, some,
}
use frpay.Decimal.{Decimals}
use frpay.Store.{
  Status, pending, confirming, confirmed, underpaid, expired, Order, Database, is_null,
}
use frpay.Orders.Lifecycle.{may_become, Shape, IsWellFormed, Progress}
use frpay.Orders.Runs.{Run, Run-Persists}

-- An order is unpaid, held by a transfer that is final or not, short-paid by one, or lapsed.
pub data Phase : Type 0 where
  unpaid : Phase
  held : Option String → Bool → Phase
  short : Option String → Phase
  lapsed : Phase

-- What may happen to it.
pub data Moves : Phase → Phase → Type 0 where
  stays : {p : Phase} → Moves p p
  takes : (tx : String) (final : Bool) → Moves unpaid (held (some tx) final)
  settles : {tx : Option String} → Moves (held tx false) (held tx true)
  falls_short : (tx : String) → Moves unpaid (short (some tx))
  lapses : Moves unpaid lapsed

abbrev pub phase_of : Status → Option String → Phase
phase_of pending tx = unpaid
phase_of confirming tx = held tx false
phase_of confirmed tx = held tx true
phase_of underpaid tx = short tx
phase_of expired tx = lapsed

abbrev pub phase : {D : Type 0} → Order D → Phase
phase o = phase_of o.status o.tx_hash

abbrev has_transfer : Status → Bool
has_transfer pending = false
has_transfer confirming = true
has_transfer confirmed = true
has_transfer underpaid = true
has_transfer expired = false

shaped :
    {D : Type 0} (s : Status) (o : Order D)
    → Shape s o
    → has_transfer s ≡ true
    → is_null o.tx_hash ≡ false
shaped pending o h e = cc
shaped confirming o h e = h.0
shaped confirmed o h e = h.0
shaped underpaid o h e = h.0
shaped expired o h e = cc

-- An unpaid order that takes a transfer.
opened :
    (s : Status) (tx : Option String)
    → (has_transfer s ≡ true → is_null tx ≡ false)
    → Moves unpaid (phase_of s tx)
opened pending tx h = stays
opened confirming none h = cc (h refl)
opened confirming (some tx) h = takes tx false
opened confirmed none h = cc (h refl)
opened confirmed (some tx) h = takes tx true
opened underpaid none h = cc (h refl)
opened underpaid (some tx) h = falls_short tx
opened expired tx h = lapses

-- One that holds a transfer keeps it.
moved :
    (a b : Status) (tx : Option String)
    → has_transfer a ≡ true
    → may_become a b ≡ true
    → Moves (phase_of a tx) (phase_of b tx)
moved confirming confirming tx h e = stays
moved confirming confirmed tx h e = settles
moved confirmed confirmed tx h e = stays
moved underpaid underpaid tx h e = stays
moved pending b tx h e = cc
moved expired b tx h e = cc
moved confirming pending tx h e = cc
moved confirming underpaid tx h e = cc
moved confirming expired tx h e = cc
moved confirmed pending tx h e = cc
moved confirmed confirming tx h e = cc
moved confirmed underpaid tx h e = cc
moved confirmed expired tx h e = cc
moved underpaid pending tx h e = cc
moved underpaid confirming tx h e = cc
moved underpaid confirmed tx h e = cc
moved underpaid expired tx h e = cc

-- What progress means for the machine, by the status before.
progress_moves :
    {D : Type 0} (a : Status) (o p : Order D)
    → o.status ≡ a
    → Shape a o
    → Progress o p
    → Moves (phase_of a o.tx_hash) (phase p)
progress_moves pending o p e shape h =
    opened p.status p.tx_hash (shaped p.status p (h.well_formed (rw e shape)))
progress_moves confirming o p e shape h =
    rw (h.tx_hash shape.0) (moved confirming p.status o.tx_hash refl (rw e at h.status))
progress_moves confirmed o p e shape h =
    rw (h.tx_hash shape.0) (moved confirmed p.status o.tx_hash refl (rw e at h.status))
progress_moves underpaid o p e shape h =
    rw (h.tx_hash shape.0) (moved underpaid p.status o.tx_hash refl (rw e at h.status))
progress_moves expired o p e shape h = rw (h.final (rw e refl), e) stays

All-move :
    {D : Type 0} (os ps : List (Order D))
    → All IsWellFormed os
    → Extends Progress os ps
    → Extends Moves (map phase os) (map phase ps)
All-move [] ps w h = tt
All-move (o ∷ os) [] w h = absurd h
All-move (o ∷ os) (p ∷ ps) w h = (progress_moves o.status o p refl w.0 h.0, All-move os ps w.1 h.1)

-- From well-formed orders, however the statements of all goroutines interleave, every order refines
-- the abstract machine of the lifecycle: it stays as it is, or goes from unpaid to held by a
-- transfer, short or lapsed, or from held to finally held by the same transfer, and by no other
-- way.
pub Run-Moves :
    {D : Type 0} ⦃dec : Decimals D⦄ {u v : Database D}
    → All IsWellFormed u.orders
    → Run u v
    → Extends Moves (map phase u.orders) (map phase v.orders)
Run-Moves {u} {v} w r = All-move u.orders v.orders w (Run-Persists r).orders
