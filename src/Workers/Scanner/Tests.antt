-- ===== src/Workers/Scanner/Tests.antt =====
-- A sweep over a small chain.
use pay.Common.{
  ℕ, ◌+◌, ◌≡◌, ◌↔◌, refl, true, List, [], ◌∷◌, Result, ok, All, arith, map, filter, ◌*◌, max, ◌≤◌,
}
use pay.Common.Maps.{get, insert}
use pay.Domain.Chain.{ChainBlockRef, has_confirmations, confirmations_against}
use pay.Ledger.{ChainBlock}
use pay.Workers.Scanner.{
  PaymentConfirmationCandidate, max_confirmable_block, confirmable_from,
  canonical_confirmable_payment_ids,
}
use pay.Workers.Scanner.Sweep.{
  is_up_to, IsCanonical, max_confirmable_block_iff, canonical_confirmable_payment_ids_lem,
}

abbrev chain_head : ChainBlockRef
chain_head = record { number = 9; hash = 109 }

abbrev old : ChainBlockRef
old = record { number = 7; hash = 107 }

max_confirmable_block_iff_example :
    ((is_up_to 7 (max_confirmable_block chain_head 3) ≡ true)
      ↔ (7 + max 1 3 ≤ chain_head.number + 1))
    × ((is_up_to 7 (max_confirmable_block chain_head 3) ≡ true)
        ↔ ((has_confirmations old chain_head 3 ≡ true) × (7 ≤ chain_head.number)))
max_confirmable_block_iff_example = max_confirmable_block_iff old chain_head 3 (omega arith)

abbrev answers : ℕ → Result ChainBlock ℕ
answers n = ok (record { number = n; hash = n + 100; parent_hash = n + 99; timestamp = n * 10 })

-- two payments in one block, and one that is too young
abbrev candidates : List PaymentConfirmationCandidate
candidates =
    record { payment_id = 1; order_id = 11; block = old; confirmations = 1 }
    ∷ record { payment_id = 2; order_id = 12; block = old; confirmations = 1 }
    ∷ record { payment_id = 3; order_id = 13; block = chain_head; confirmations = 1 }
    ∷ []

swept : canonical_confirmable_payment_ids answers chain_head 3 candidates ≡ ok (1 ∷ 2 ∷ [])
unfolding canonical_confirmable_payment_ids confirmable_from get insert has_confirmations
    confirmations_against
swept = refl

canonical_confirmable_payment_ids_lem_example :
    (1 ∷ 2 ∷ []
      ≡ map (λ c. c.payment_id) (filter (λ c. has_confirmations c.block chain_head 3) candidates))
    × All (IsCanonical answers) candidates
canonical_confirmable_payment_ids_lem_example =
    canonical_confirmable_payment_ids_lem answers chain_head 3 candidates swept
