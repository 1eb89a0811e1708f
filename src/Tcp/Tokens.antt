-- ===== src/Tcp/Tokens.antt =====
-- `EndpointTokens` of src/net/TcpState.h: tokens that name the ends of sessions and are never
-- given out twice.
mod Tests
use l4_load_balancer_with_xd.Prelude.{
  ℕ, suc, ◌+◌, ◌≤◌, ◌<◌, ◌≡◌, ◌≢◌, refl, ◌∙◌, ◌⊎◌, Bool, true, false, Option, none, some, List, [],
  ◌∷◌, arith, ◌==◌, ==_iff, if◌then◌else◌, length, add64, u64_max, Bool-cases, inl, inr, nat_eq,
}
use l4_load_balancer_with_xd.Prelude.Map.{
  Map, find, erase, emplace, find-erase_self, find-erase_ne, find-erase-none, find-emplace_self,
  find-emplace_ne,
}

-- `EndpointTokens::Target`
pub record Target : Type 0 where
  pub session_id : ℕ
  pub side : ℕ

pub record EndpointTokens : Type 0 where
  pub next_token : ℕ
  pub entries : Map ℕ Target

-- 1 is the listener and 2 the signal descriptor.
abbrev pub no_tokens : EndpointTokens
no_tokens = record { next_token = 3; entries = [] }

-- `none` is the `std::overflow_error`.
unfoldable pub register_endpoint : EndpointTokens → ℕ → ℕ → Option (ℕ × EndpointTokens)
unfolding emplace find
register_endpoint t session_id side =
    if t.next_token == u64_max
    then none
    else some (
      t.next_token,
      record {
        next_token = add64 t.next_token 1;
        entries = emplace t.next_token (record { session_id = session_id; side = side }) t.entries;
      },
    )

unfoldable pub find_endpoint : EndpointTokens → ℕ → Option Target
find_endpoint t token = find token t.entries

unfoldable pub unregister_endpoint : EndpointTokens → ℕ → EndpointTokens
unregister_endpoint t token = record t { entries = erase token t.entries }

unfoldable pub size : EndpointTokens → ℕ
size t = length t.entries

-- Every token that resolves was given out before, and the two reserved ones never resolve.
pub record IsValid (t : EndpointTokens) : Type 0 where
  pub reserved : 3 ≤ t.next_token
  pub fits : t.next_token ≤ u64_max
  pub given : (token : ℕ) → t.next_token ≤ token → find token t.entries ≡ none
  pub unreserved : (token : ℕ) → token < 3 → find token t.entries ≡ none

pub no_tokens-IsValid : IsValid no_tokens
unfolding find
no_tokens-IsValid = record {
  reserved = omega arith;
  fits = omega arith;
  given = λ token h. refl;
  unreserved = λ token h. refl;
}

find-emplace_other :
    (j k : ℕ) (x : Target) (m : Map ℕ Target) → k ≢ j → find j (emplace k x m) ≡ find j m
find-emplace_other j k x m ne = find-emplace_ne j k x m (ground (arith, ne))

-- A new token is the next number: it resolved to nothing and is not reserved, it resolves to the
-- end that it was given out for, every other token resolves as before, and the invariant is kept.
-- Only at the last value of the counter the call throws.
pub register_endpoint_lem :
    {t : EndpointTokens} (session_id side : ℕ)
    → IsValid t
    → ((t.next_token ≡ u64_max) × (register_endpoint t session_id side ≡ none))
      ⊎ ((u : EndpointTokens) × (register_endpoint t session_id side ≡ some (t.next_token, u))
          × (find_endpoint t t.next_token ≡ none)
          × (2 < t.next_token)
          × (find_endpoint u t.next_token ≡ some (record { session_id = session_id; side = side }))
          × ((other : ℕ) → t.next_token ≢ other → find_endpoint u other ≡ find_endpoint t other)
          × (u.next_token ≡ t.next_token + 1)
          × IsValid u)
unfolding register_endpoint find_endpoint
register_endpoint_lem {t} session_id side v = elim (Bool-cases (t.next_token == u64_max)) [
  | inl e ↦ inl (ground arith, rw e)
  | inr e ↦
      let x : Target = record { session_id = session_id; side = side } in
      let m = t.entries in
      inr (
        record { next_token = add64 t.next_token 1; entries = emplace t.next_token x m },
        rw e,
        v.given t.next_token (omega arith),
        omega (arith, v.reserved),
        find-emplace_self t.next_token x m (v.given t.next_token (omega arith)),
        (λ other ne. find-emplace_other other t.next_token x m ne),
        ground (arith, v.fits),
        record {
          reserved = ground (arith, v.fits, v.reserved);
          fits = ground (arith, v.fits);
          given = λ token h.
              find-emplace_other token t.next_token x m (ground (arith, v.fits))
              ∙ v.given token (ground (arith, v.fits));
          unreserved = λ token h.
              find-emplace_other token t.next_token x m (omega (arith, v.reserved))
              ∙ v.unreserved token h;
        },
      )
]

pub unregister_endpoint-IsValid :
    {t : EndpointTokens} (token : ℕ) → IsValid t → IsValid (unregister_endpoint t token)
unfolding unregister_endpoint
unregister_endpoint-IsValid {t} token v = record {
  reserved = v.reserved;
  fits = v.fits;
  given = λ k h. find-erase-none k token t.entries (v.given k h);
  unreserved = λ k h. find-erase-none k token t.entries (v.unreserved k h);
}

-- The calls of the event loop, in order; a call that throws leaves the table as it was.
pub data Call : Type 0 where
  registers : ℕ → ℕ → Call
  unregisters : ℕ → Call

abbrev settle : EndpointTokens → Option (ℕ × EndpointTokens) → EndpointTokens
settle t none = t
settle t (some (token, u)) = u

unfoldable pub run : EndpointTokens → List Call → EndpointTokens
run t [] = t
run t (registers session_id side ∷ calls) =
    run (settle t (register_endpoint t session_id side)) calls
run t (unregisters token ∷ calls) = run (unregister_endpoint t token) calls

-- `token` was given out, or is reserved, and resolves to nothing.
pub record IsStale (token : ℕ) (t : EndpointTokens) : Type 0 where
  pub valid : IsValid t
  pub past : token < t.next_token
  pub unresolved : find_endpoint t token ≡ none

register-IsStale :
    {token : ℕ} {t : EndpointTokens} (session_id side : ℕ)
    → IsStale token t
    → IsStale token (settle t (register_endpoint t session_id side))
register-IsStale {token} {t} session_id side s =
    elim (register_endpoint_lem session_id side s.valid) [
      | inl (last, e) ↦ rw e s
      | inr (u, e, fresh, above, hit, others, next, valid) ↦ rw e (record {
        valid = valid;
        past = omega (arith, s.past);
        unresolved = others token (omega (arith, s.past)) ∙ s.unresolved;
      })
    ]

unregister-IsStale :
    {token : ℕ} {t : EndpointTokens} (other : ℕ)
    → IsStale token t
    → IsStale token (unregister_endpoint t other)
unregister-IsStale {token} {t} other s = record {
  valid = unregister_endpoint-IsValid other s.valid;
  past = unfold unregister_endpoint in s.past;
  unresolved =
      unfold unregister_endpoint find_endpoint in
      find-erase-none token other t.entries s.unresolved;
}

run-IsStale :
    {token : ℕ} (calls : List Call) {t : EndpointTokens}
    → IsStale token t
    → IsStale token (run t calls)
unfolding run
run-IsStale [] s = s
run-IsStale (registers session_id side ∷ calls) s =
    run-IsStale calls (register-IsStale session_id side s)
run-IsStale (unregisters other ∷ calls) s = run-IsStale calls (unregister-IsStale other s)

-- Once a token that was given out is unregistered, no later calls make it resolve again: an event
-- that still carries it cannot reach another session.
pub unregistered_for_good :
    {t : EndpointTokens} (token : ℕ) (calls : List Call)
    → IsValid t
    → token < t.next_token
    → find_endpoint (run (unregister_endpoint t token) calls) token ≡ none
unregistered_for_good {t} token calls v past = (run-IsStale {token = token} calls gone).unresolved
  where
    gone : IsStale token (unregister_endpoint t token)
    gone = record {
      valid = unregister_endpoint-IsValid token v;
      past = unfold unregister_endpoint in past;
      unresolved = unfold unregister_endpoint find_endpoint in find-erase_self token t.entries;
    }
