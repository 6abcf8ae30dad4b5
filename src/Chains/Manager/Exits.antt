-- ===== src/Chains/Manager/Exits.antt =====
-- Manager.Run of internal/chains/manager.go: the goroutines of the watchers, and what Run returns once
-- all of them have ended.
use frpay.Prelude.{
  String, Bool, ◌≡◌, refl, Option, none, some, List, [], ◌∷◌, Option-cases, Bool-cases, inl, inr,
  if◌then◌else◌, arith,
}

-- How the goroutine of a chain ends: what the watcher's Run returned, and whether the context had ended
-- by then.
pub record Exit (E : Type 0) : Type 0 where
  pub chain : String
  pub error : Option E
  pub cancelled : Bool

-- fmt.Errorf("watcher %s: %w", chain, err)
pub record WatcherError (E : Type 0) : Type 0 where
  pub chain : String
  pub error : E

-- The first value that there is.
abbrev pub first_of : {A B : Type 0} → (A → Option B) → List A → Option B
first_of f [] = none
first_of f (x ∷ xs) = elim (f x) [ none ↦ first_of f xs | some b ↦ some b ]

module _ {E : Type 0} where
  -- firstErr is set once.
  unfoldable pub keep_first : String → E → Option (WatcherError E) → Option (WatcherError E)
  keep_first chain e none = some (record { chain = chain; error = e })
  keep_first chain e (some first) = some first

  -- The end of one goroutine, with the lock held while it looks at firstErr.
  unfoldable pub on_exit : Exit E → Option (WatcherError E) → Option (WatcherError E)
  unfolding keep_first
  on_exit x first = elim x.error [
    | none ↦ first
    | some e ↦ if x.cancelled then first else keep_first x.chain e first
  ]

  -- The goroutines in the order in which they end, up to wg.Wait.
  unfoldable pub wait : List (Exit E) → Option (WatcherError E) → Option (WatcherError E)
  wait [] first = first
  wait (x ∷ xs) first = wait xs (on_exit x first)

  -- Manager.Run
  unfoldable pub run_all : List (Exit E) → Option (WatcherError E)
  run_all exits = wait exits none

  -- The error of a goroutine that ended before the context did.
  abbrev pub unexpected : Exit E → Option (WatcherError E)
  unexpected x = elim x.error [
    | none ↦ none
    | some e ↦ if x.cancelled then none else some (record { chain = x.chain; error = e })
  ]

  wait_kept : (xs : List (Exit E)) (first : WatcherError E) → wait xs (some first) ≡ some first
  unfolding wait on_exit keep_first
  wait_kept [] first = refl
  wait_kept (x ∷ xs) first = ground (arith, wait_kept xs first)

  -- Manager.Run returns the error of the first watcher that ended with an error before the context
  -- did, with its chain, whatever the others do before and after it; and no error if there is none.
  pub run_all-first_of : (exits : List (Exit E)) → run_all exits ≡ first_of unexpected exits
  unfolding run_all wait on_exit keep_first
  run_all-first_of [] = refl
  run_all-first_of (x ∷ xs) = elim (Option-cases x.error) [
    | inl fine ↦ rw (fine, on_exit) (run_all-first_of xs)
    | inr (e, failed) ↦
        rw (failed, on_exit)
          (elim (Bool-cases x.cancelled) [
            | inl over ↦ rw over (run_all-first_of xs)
            | inr early ↦ rw early (wait_kept xs _)
          ])
  ]
