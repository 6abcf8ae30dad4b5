-- ===== src/Chains/Client/Endpoints.antt =====
-- Which attempt decides a call of a client.
use frpay.Prelude.{
  ℕ, String, ◌≡◌, refl, arith, Bool, true, false, ◌||◌, Option, none, some, List, [], ◌∷◌, any,
}
use frpay.Chains.Client.{
  Attempt, answered, retried, rejected, Call, got, cancelled, refused, all_failed, HttpResponse,
  decoded, rpc_decoded, call_attempt, after_attempt, second_attempt, try_urls, evm_call,
}

-- What happens in a call, in order: an attempt, or a wait, in which the context ends or not.
pub data Happening (B : Type 0) : Type 0 where
  attempts : Attempt B → Happening B
  waits : Bool → Happening B

module _ {B : Type 0} where
  unfoldable pub happenings :
      (String → ℕ → Attempt B) → (String → Bool) → List String → List (Happening B)
  happenings attempt is_cancelled [] = []
  happenings attempt is_cancelled (url ∷ urls) =
      attempts (attempt url 0)
      ∷ waits (is_cancelled url)
      ∷ attempts (attempt url 1)
      ∷ happenings attempt is_cancelled urls

  -- The first of them that is neither an error to go on after nor a whole wait.
  unfoldable pub first_decisive : List (Happening B) → Call B
  first_decisive [] = all_failed
  first_decisive (attempts (answered b) ∷ hs) = got b
  first_decisive (attempts retried ∷ hs) = first_decisive hs
  first_decisive (attempts rejected ∷ hs) = refused
  first_decisive (waits true ∷ hs) = cancelled
  first_decisive (waits false ∷ hs) = first_decisive hs

  one_attempt :
      (a : Attempt B) (again : Call B) (hs : List (Happening B))
      → again ≡ first_decisive hs
      → after_attempt again a ≡ first_decisive (attempts a ∷ hs)
  unfolding after_attempt first_decisive
  one_attempt (answered b) again hs e = refl
  one_attempt retried again hs e = e
  one_attempt rejected again hs e = refl

  one_wait :
      (c : Bool) (a : Attempt B) (next : Call B) (hs : List (Happening B))
      → next ≡ first_decisive hs
      → second_attempt c a next ≡ first_decisive (waits c ∷ attempts a ∷ hs)
  unfolding second_attempt first_decisive
  one_wait true a next hs e = refl
  one_wait false a next hs e = one_attempt a next hs e

  -- The loop over the endpoints comes to the first decisive of all that may happen in it, in order:
  -- an answer, an error that ends the call, or the end of the context in the wait before a second
  -- attempt; to the error that all endpoints failed if there is none.
  pub try_urls-decisive :
      (attempt : String → ℕ → Attempt B) (is_cancelled : String → Bool) (urls : List String)
      → try_urls attempt is_cancelled urls ≡ first_decisive (happenings attempt is_cancelled urls)
  unfolding try_urls happenings
  try_urls-decisive attempt is_cancelled [] = unfold first_decisive in refl
  try_urls-decisive attempt is_cancelled (url ∷ urls) = one_attempt (attempt url 0) _ _ (
      one_wait (is_cancelled url) (attempt url 1) _ _ (try_urls-decisive attempt is_cancelled urls))

  abbrev pub is_answered : Attempt B → Bool
  is_answered (answered b) = true
  is_answered _ = false

  abbrev pub is_rejected : Attempt B → Bool
  is_rejected rejected = true
  is_rejected _ = false

  abbrev pub is_got : Call B → Bool
  is_got (got b) = true
  is_got _ = false

  -- Some endpoint answers one of its attempts.
  abbrev pub some_answers : (String → ℕ → Attempt B) → List String → Bool
  some_answers attempt = any λ url. is_answered (attempt url 0) || is_answered (attempt url 1)

  abbrev rejects : (String → ℕ → Attempt B) → String → Bool
  rejects attempt url = is_rejected (attempt url 0) || is_rejected (attempt url 1)

  answers_got :
      (attempt : String → ℕ → Attempt B) (is_cancelled : String → Bool) (urls : List String)
      → any (rejects attempt) urls ≡ false
      → any is_cancelled urls ≡ false
      → some_answers attempt urls ≡ true
      → is_got (try_urls attempt is_cancelled urls) ≡ true
  unfolding try_urls after_attempt second_attempt any
  answers_got attempt is_cancelled [] r c h = cc
  answers_got attempt is_cancelled (url ∷ urls) r c h =
      ground (arith, answers_got attempt is_cancelled urls)

  decoded_not_rejected : (b : Option B) → is_rejected (decoded b) ≡ false
  decoded_not_rejected none = refl
  decoded_not_rejected (some b) = refl

  rpc_not_rejected :
      (decode : String → Option B) (r : Option (Bool × String))
      → is_rejected (rpc_decoded decode r) ≡ false
  rpc_not_rejected decode none = refl
  rpc_not_rejected decode (some (true, result)) = refl
  rpc_not_rejected decode (some (false, result)) = decoded_not_rejected (decode result)

  call_not_rejected :
      (envelope : String → Option (Bool × String)) (decode : String → Option B)
      (r : Option HttpResponse)
      → is_rejected (call_attempt envelope decode r) ≡ false
  unfolding call_attempt
  call_not_rejected envelope decode none = refl
  call_not_rejected envelope decode (some r) =
      ground (arith, rpc_not_rejected decode (envelope r.body))

  none_rejected :
      (envelope : String → Option (Bool × String)) (decode : String → Option B)
      (respond : String → ℕ → Option HttpResponse) (urls : List String)
      → any (rejects (λ url n. call_attempt envelope decode (respond url n))) urls ≡ false
  unfolding any
  none_rejected envelope decode respond [] = refl
  none_rejected envelope decode respond (url ∷ urls) = ground (
    arith,
    call_not_rejected envelope decode (respond url 0),
    call_not_rejected envelope decode (respond url 1),
    none_rejected envelope decode respond urls,
  )

  -- A call of the JSON-RPC client, whose context does not end while it waits, returns an answer
  -- whenever some endpoint would answer one of its two attempts, whatever the other endpoints do.
  pub evm_call_answers :
      (urls : List String) (respond : String → ℕ → Option HttpResponse)
      (is_cancelled : String → Bool) (envelope : String → Option (Bool × String))
      (decode : String → Option B)
      → any is_cancelled urls ≡ false
      → some_answers (λ url n. call_attempt envelope decode (respond url n)) urls ≡ true
      → is_got (evm_call urls respond is_cancelled envelope decode) ≡ true
  unfolding evm_call
  evm_call_answers urls respond is_cancelled envelope decode =
      answers_got (λ url n. call_attempt envelope decode (respond url n)) is_cancelled urls
        (none_rejected envelope decode respond urls)
