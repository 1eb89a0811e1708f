-- ===== src/Tcp/Tokens/Tests.antt =====
-- The token table from its start.
use l4_load_balancer_with_xd.Prelude.{
  ℕ, ◌+◌, ◌<◌, ◌≡◌, ◌≢◌, refl, ◌⊎◌, none, some, [], ◌∷◌, arith, u64_max, nat_eq,
}
use l4_load_balancer_with_xd.Prelude.Map.{find, erase}
use l4_load_balancer_with_xd.Tcp.Tokens.{
  Target, EndpointTokens, no_tokens, register_endpoint, find_endpoint, unregister_endpoint, size,
  IsValid, no_tokens-IsValid, register_endpoint_lem, registers, unregisters, run,
  unregistered_for_good,
}

abbrev client : Target
client = record { session_id = 7; side = 0 }

abbrev one : EndpointTokens
one = record { next_token = 4; entries = (3, client) ∷ [] }

one-IsValid : IsValid one
unfolding find
one-IsValid = record {
  reserved = omega arith;
  fits = omega arith;
  given = λ token h. ground arith;
  unreserved = λ token h. ground arith;
}

first_token_is_three : register_endpoint no_tokens 7 0 ≡ some (3, one)
unfolding register_endpoint
first_token_is_three = refl

counter_ends : register_endpoint (record one { next_token = u64_max }) 7 0 ≡ none
unfolding register_endpoint
counter_ends = refl

unregistered_leaves_none : size (unregister_endpoint one 3) ≡ 0
unfolding size unregister_endpoint erase
unregistered_leaves_none = refl

register_endpoint_lem_example :
    ((3 ≡ u64_max) × (register_endpoint no_tokens 7 0 ≡ none))
    ⊎ ((u : EndpointTokens) × (register_endpoint no_tokens 7 0 ≡ some (3, u))
        × (find_endpoint no_tokens 3 ≡ none)
        × (2 < 3)
        × (find_endpoint u 3 ≡ some client)
        × ((other : ℕ) → 3 ≢ other → find_endpoint u other ≡ find_endpoint no_tokens other)
        × (u.next_token ≡ 3 + 1)
        × IsValid u)
register_endpoint_lem_example = register_endpoint_lem {t = no_tokens} 7 0 no_tokens-IsValid

unregistered_for_good_example :
    find_endpoint
      (run (unregister_endpoint one 3) (registers 8 0 ∷ registers 8 1 ∷ unregisters 4 ∷ []))
      3
    ≡ none
unregistered_for_good_example =
    unregistered_for_good {t = one} 3 (registers 8 0 ∷ registers 8 1 ∷ unregisters 4 ∷ [])
      one-IsValid (omega arith)
