-- ===== src/Rpc/Failover.antt =====
-- `request_first_success` against its description, and what the store sees of its errors.
use pay.Common.{
  ℕ, ◌≡◌, refl, ◌∙◌, ap, Option, none, some, List, [], ◌∷◌, ◌++◌, Result, ok, err, append_assoc,
  append-nil,
}
use pay.Common.Uint.{Text}
use pay.Common.Strings.{codes}
use pay.LogStore.Source.{ChainError, rpc_unavailable}
use pay.Rpc.Health.{Instant, ManagedRpcProvider}
use pay.Rpc.Texts.{to_string, join}
use pay.Rpc.Manager.{
  RpcProviderManager, ProviderValue, provider_candidates, id_at, line, first_success_from,
  request_first_success, tried,
}
use pay.Rpc.Request.{SameIds, failed_with-ids}

module _ {Value : Type 0} (answer : ℕ → Result Value ChainError)
    (ids : List ManagedRpcProvider) where
  abbrev pub line_and : ℕ → Result Value ChainError → List Text → List Text
  line_and i (ok value) rest = []
  line_and i (err error) rest = line i ids (to_string error) ∷ rest

  -- the error lines of the candidates in front of the first one that answers
  abbrev pub lines_before : List ℕ → List Text
  lines_before [] = []
  lines_before (i ∷ is) = line_and i (answer i) (lines_before is)

  abbrev pub answer_or :
      ℕ → Result Value ChainError → Option (ProviderValue Value) → Option (ProviderValue Value)
  answer_or i (ok value) rest = some (record { provider_id = id_at i ids; value = value })
  answer_or i (err error) rest = rest

  -- the first answer, with who gave it
  abbrev pub first_answer : List ℕ → Option (ProviderValue Value)
  first_answer [] = none
  first_answer (i ∷ is) = answer_or i (answer i) (first_answer is)

  abbrev pub first_reply :
      Text → List Text → Option (ProviderValue Value) → Result (ProviderValue Value) ChainError
  first_reply method errors (some value) = ok value
  first_reply method errors none =
      err
        (rpc_unavailable (codes "all RPC providers failed " ++ method ++ codes ": " ++ join errors))

  module _ (at : ℕ → Instant) (method : Text) where
    abbrev Replies :
        (List Text
          → List ManagedRpcProvider
          → Result (ProviderValue Value) ChainError × List ManagedRpcProvider)
        → List Text
        → Option (ProviderValue Value)
        → Type 0
    Replies rest lines found =
        (errors : List Text) (providers : List ManagedRpcProvider)
        → SameIds ids providers
        → (rest errors providers).0 ≡ first_reply method (errors ++ lines) found

    tried_lem :
        (i : ℕ) (a : Result Value ChainError)
        (rest : List Text
          → List ManagedRpcProvider
          → Result (ProviderValue Value) ChainError × List ManagedRpcProvider)
        (lines : List Text) (found : Option (ProviderValue Value))
        → Replies rest lines found
        → Replies (tried answer at i a rest) (line_and i a lines) (answer_or i a found)
    tried_lem i (ok value) rest lines found h errors providers same = rw (same i) refl
    tried_lem i (err error) rest lines found h errors providers same =
        h _ _ (λ j. failed_with-ids answer at error i providers j ∙ same j)
        ∙ ap (λ ls. first_reply method ls found)
            (append_assoc errors (line i providers (to_string error) ∷ []) lines
              ∙ ap (λ id. errors ++ (id ++ codes ": " ++ to_string error) ∷ lines) (same i))

    first_success_lem :
        (is : List ℕ)
        → Replies (first_success_from answer at method is) (lines_before is) (first_answer is)
    unfolding first_success_from
    first_success_lem [] errors providers same = rw (append-nil errors) refl
    first_success_lem (i ∷ is) errors providers same =
        tried_lem i (answer i) _ _ _ (first_success_lem is) errors providers same

-- A request returns the value of the first candidate that answers, with its identifier; if none answers,
-- it fails with a message that has the method and the errors of all candidates in their order.
pub request_first_success_lem :
    {Value : Type 0} (m : RpcProviderManager) (now : Instant) (answer : ℕ → Result Value ChainError)
    (at : ℕ → Instant) (method : Text)
    → let asked = (provider_candidates m now).0 in
      (request_first_success answer at m now method).0
      ≡ first_reply answer m.providers method
          (lines_before answer m.providers asked)
          (first_answer answer m.providers asked)
unfolding request_first_success
request_first_success_lem m now answer at method =
    first_success_lem answer m.providers at method (provider_candidates m now).0 [] m.providers
      (λ i. refl)
