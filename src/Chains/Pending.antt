-- ===== src/Chains/Pending.antt =====
-- The transfers that wait for confirmations, by their hash: what SeedPending and refreshConfirmations
-- of every watcher do to them. The code is the same in internal/chains/evm/watcher.go and
-- tron/watcher.go, and in ton/watcher.go but for what an entry holds.
use frpay.Prelude.{
  is_some, true, String, ◌≡◌, refl, ◌∙◌, arith, Bool, ◌&&◌, Option, none, some, [], ◌∷◌, str_eq,
  eq_iff, any, Dict, lookup, insert, remove, lookup-insert, lookup-remove, if◌then◌else◌,
}
use frpay.Store.{IsPreorder, Database, Action}
use frpay.Chains.Watcher.{TransferEvent}

module _ {I : Type 0} where
  -- An entry, unless the hash has one already.
  unfoldable pub add_to : Option I → String → I → Dict I → Dict I
  add_to (some _) tx it p = p
  add_to none tx it p = insert tx it p

  unfoldable pub add_unseen : String → I → Dict I → Dict I
  unfolding add_to
  add_unseen tx it p = add_to (lookup tx p) tx it p

  abbrev pub or_new : Option I → I → I
  or_new none it = it
  or_new (some old) it = old

  pub lookup-add_unseen :
      (tx : String) (it : I) (p : Dict I) (j : String)
      → lookup j (add_unseen tx it p)
        ≡ (if str_eq tx j then some (or_new (lookup j p) it) else lookup j p)
  unfolding add_unseen add_to
  lookup-add_unseen tx it p j = go (lookup tx p) refl
    where
      go :
          (o : Option I)
          → lookup tx p ≡ o
          → lookup j (add_to o tx it p)
            ≡ (if str_eq tx j then some (or_new (lookup j p) it) else lookup j p)
      go none h = ground (arith, eq_iff tx j, lookup-insert tx j it p)
      go (some old) h = ground (arith, eq_iff tx j)

  -- The hash has an entry afterwards, and no other hash has lost its own.
  pub has-add_unseen :
      (tx : String) (it : I) (p : Dict I) → is_some (lookup tx (add_unseen tx it p)) ≡ true
  has-add_unseen tx it p = rw (lookup-add_unseen tx it p tx, (eq_iff tx tx).1 refl) refl

  pub add_unseen_keeps :
      (tx : String) (it : I) (p : Dict I) (j : String)
      → is_some (lookup j p) ≡ true
      → is_some (lookup j (add_unseen tx it p)) ≡ true
  add_unseen_keeps tx it p j h = rw (lookup-add_unseen tx it p j) (ground arith)

  -- No hash has lost its entry.
  abbrev pub KeepsKeys : Dict I → Dict I → Type 0
  KeepsKeys p p' = (j : String) → is_some (lookup j p) ≡ true → is_some (lookup j p') ≡ true

  pub insert-KeepsKeys : (tx : String) (it : I) (p : Dict I) → KeepsKeys p (insert tx it p)
  insert-KeepsKeys tx it p j h = rw (lookup-insert tx j it p) (ground arith)

  -- The same of what a loop over pages has seen, with its marks.
  pub Seen-preorder : {M : Type 0} → IsPreorder λ (s s' : Dict I × M). KeepsKeys s.0 s'.0
  Seen-preorder = record { reflexive = λ s j h. h; transitive = λ a b c h k j e. k j (h j e) }

  -- Some entry of the hash is settled.
  abbrev pub settles : (I → Bool) → String → Dict I → Bool
  settles settled tx = any λ e. str_eq e.0 tx && settled e.1

module _ {D E I : Type 0} (sink : TransferEvent D → Action D E Unit)
    (report : String → I → TransferEvent D) (settled : I → Bool) where
  -- The loop over the copied entries; the sink's error is only logged.
  unfoldable pub refresh_items : Dict I → Dict I → Database D → Dict I × Database D
  refresh_items [] p db = (p, db)
  refresh_items ((tx, it) ∷ items) p db =
      refresh_items items (if settled it then remove tx p else p) (sink (report tx it) db).1

  pub lookup-refresh_items :
      (tx : String) (items p : Dict I) (db : Database D)
      → lookup tx (refresh_items items p db).0
        ≡ (if settles settled tx items then none else lookup tx p)
  unfolding refresh_items any
  lookup-refresh_items tx [] p db = refl
  lookup-refresh_items tx ((k, it) ∷ items) p db =
      lookup-refresh_items tx items (if settled it then remove k p else p) (sink (report k it) db).1
      ∙ ground (arith, lookup-remove k tx p)
