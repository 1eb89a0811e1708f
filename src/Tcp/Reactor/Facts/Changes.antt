-- ===== src/Tcp/Reactor/Facts/Changes.antt =====
-- The invariant of the reactor under the changes of its tables and under calls that move bytes.
use mathlib.Core.Path.{◌≡◌, refl}
use l4_load_balancer_with_xd.Prelude.{
  ◌≢◌, ℕ, ◌≤◌, ◌<◌, true, false, none, some, ◌==◌, ==_iff, arith, sym, ap, ◌∙◌, ◌⊎◌, inl, inr,
  u64_max, add64, Bool-cases, Option-cases, nat_eq,
}
use l4_load_balancer_with_xd.Prelude.Map.{
  Map, find, update, erase, emplace, find-update_self, find-update_ne, find-update_cases,
  find-erase-some, find-erase_ne, find-emplace_self, find-emplace_ne, update-none,
}
use l4_load_balancer_with_xd.Config.Endpoint.{Endpoint}
use l4_load_balancer_with_xd.Tcp.Tokens.{
  EndpointTokens, Target, unregister_endpoint, unregister_endpoint-IsValid,
}
use l4_load_balancer_with_xd.Tcp.Buffer.Fifo.{contents}
use l4_load_balancer_with_xd.Tcp.Buffer.Spans.{span}
use l4_load_balancer_with_xd.Tcp.World.{Side, client, backend}
use l4_load_balancer_with_xd.Tcp.Reactor.{Session, new_session, other}
use l4_load_balancer_with_xd.Tcp.Reactor.Dispatch.{side_of}
use l4_load_balancer_with_xd.Tcp.Reactor.Facts.{Trace, IsSound, InOrder, Owns, Facts, SessionIs}

-- The tokens of the ends are the same.
abbrev pub SameTokens : Session → Session → Type 0
SameTokens x y = (side : Side) → (y.ends side).token ≡ (x.ends side).token

-- The traces agree on every other session.
pub record Elsewhere (id : ℕ) (t u : Trace) : Type 0 where
  pub selects : u.selects ≡ t.selects
  pub received : (j : ℕ) → (id == j) ≡ false → u.received j ≡ t.received j
  pub sent : (j : ℕ) → (id == j) ≡ false → u.sent j ≡ t.sent j

pub Elsewhere-refl : (id : ℕ) (t : Trace) → Elsewhere id t t
Elsewhere-refl id t = record { selects = refl; received = λ j h. refl; sent = λ j h. refl }

differs_of_lt : (id j next : ℕ) → id < next → next ≤ j → (id == j) ≡ false
differs_of_lt id j next h k = ground arith

module _ {id next : ℕ} {tokens : EndpointTokens} {sessions : Map ℕ Session} {t u : Trace}
    {x : Session} (f : Session → Session) (at : SessionIs id x next tokens sessions t)
    (moved : Elsewhere id t u) (sound : IsSound id (u.received id) (u.sent id) (f x))
    (same : SameTokens x (f x)) where
  found_before :
      (j : ℕ) (y : Session)
      → find j (update id f sessions) ≡ some y
      → ((id ≡ j) × (y ≡ f x)) ⊎ (((id == j) ≡ false) × (find j sessions ≡ some y))
  found_before j y h = find-update_cases j id f sessions x y at.1 h

  InOrder-after : InOrder u
  InOrder-after j side = elim (Bool-cases (id == j)) [
    | inl e ↦ rw (← (==_iff id j).0 e) (_, sound.stream side)
    | inr e ↦ rw (moved.received j e, moved.sent j e) (at.0.in_order j side)
  ]

  owned_after :
      (token : ℕ) (target : Target)
      → Owns sessions token target
      → Owns (update id f sessions) token target
  owned_after token target (y, found, carries) = elim (Bool-cases (id == target.session_id)) [
    | inl e ↦
        let j : id ≡ target.session_id = (==_iff id target.session_id).0 e in
        let y_is : x ≡ y = (let q : find id sessions ≡ some y = rw j found in let p = at.1 in cc) in
        (
          f x,
          rw (← j) (find-update_self id f sessions x at.1),
          same (side_of target.side) ∙ rw y_is carries,
        )
    | inr e ↦ (y, find-update_ne target.session_id id f sessions e ∙ found, carries)
  ]

  -- A change of one session, with the calls that moved its bytes.
  pub moved-Facts : SessionIs id (f x) next tokens (update id f sessions) u
  moved-Facts = (
    record {
      numbered = rw moved.selects at.0.numbered;
      fresh = λ j side h.
          let e = differs_of_lt id j next (at.0.below id x at.1) h in
          rw (moved.received j e, moved.sent j e) (at.0.fresh j side h);
      in_order = InOrder-after;
      below = λ j y h. elim (found_before j y h) [
        | inl (e, e') ↦ rw (← e) (at.0.below id x at.1)
        | inr (e, found) ↦ at.0.below j y found
      ];
      sound = λ j y h. elim (found_before j y h) [
        | inl (e, e') ↦ rw (← e, e') sound
        | inr (e, found) ↦ rw (moved.received j e, moved.sent j e) (at.0.sound j y found)
      ];
      tokens_valid = at.0.tokens_valid;
      owned = λ token target h. owned_after token target (at.0.owned token target h);
    },
    find-update_self id f sessions x at.1,
  )

-- A change that is sound for every session.
pub change-Facts :
    {next : ℕ} {tokens : EndpointTokens} {sessions : Map ℕ Session} {t : Trace} (id : ℕ)
    (f : Session → Session)
    → ((x : Session)
        → IsSound id (t.received id) (t.sent id) x
        → IsSound id (t.received id) (t.sent id) (f x))
    → ((x : Session) → SameTokens x (f x))
    → Facts next tokens sessions t
    → Facts next tokens (update id f sessions) t
change-Facts {sessions} {t} id f sound same facts = elim (Option-cases (find id sessions)) [
  | inl absent ↦ rw (update-none id f sessions absent) facts
  | inr (x, found) ↦
      (moved-Facts f (facts, found) (Elsewhere-refl id t) (sound x (facts.sound id x found))
        (same x)).0
]

abbrev without_ends : Session → EndpointTokens → EndpointTokens
without_ends x tokens =
    unregister_endpoint (unregister_endpoint tokens (x.ends client).token) (x.ends backend).token

ne_of_test : (a b : ℕ) → (a == b) ≡ false → a ≢ b
ne_of_test a b h e = let p = (==_iff a b).1 e in cc

-- A token that still resolves is not one of the two that were removed.
left_token :
    (x : Session) (tokens : EndpointTokens) (token : ℕ) (target : Target)
    → find token (without_ends x tokens).entries ≡ some target
    → (find token tokens.entries ≡ some target) × ((side : Side) → (x.ends side).token ≢ token)
unfolding unregister_endpoint
left_token x tokens token target h =
    let (e1, h1) = find-erase-some token _ _ target h in
    let (e0, h0) = find-erase-some token _ _ target h1 in
    (
      h0,
      λ side. elim side as (λ i. (x.ends i).token ≢ token) [
        | client ↦ ne_of_test _ token e0
        | backend ↦ ne_of_test _ token e1
      ],
    )

-- The session leaves the table.
pub unlink-Facts :
    {next : ℕ} {tokens : EndpointTokens} {sessions : Map ℕ Session} {t : Trace} (id : ℕ)
    (x : Session)
    → Facts next tokens sessions t
    → find id sessions ≡ some x
    → Facts next (without_ends x tokens) (erase id sessions) t
unlink-Facts {tokens} {sessions} id x facts found = record {
  numbered = facts.numbered;
  fresh = facts.fresh;
  in_order = facts.in_order;
  below = λ j y h. facts.below j y (find-erase-some j id sessions y h).1;
  sound = λ j y h. facts.sound j y (find-erase-some j id sessions y h).1;
  tokens_valid = unregister_endpoint-IsValid _ (unregister_endpoint-IsValid _ facts.tokens_valid);
  owned = λ token target h.
      let (before, differs) = left_token x tokens token target h in
      let (y, there, carries) = facts.owned token target before in
      elim (Bool-cases (id == target.session_id)) [
        | inl e ↦
            let q = ap (λ i. find i sessions) ((==_iff id target.session_id).0 e) in
            let y_is : Path Session x y = cc in
            let side = side_of target.side in
            absurd (differs side (ap (λ (z : Session). (z.ends side).token) y_is ∙ carries))
        | inr e ↦ (y, find-erase_ne target.session_id id sessions e ∙ there, carries)
      ];
}

-- A session is new.
module _ {next : ℕ} {tokens : EndpointTokens} {sessions : Map ℕ Session} {t : Trace}
    (facts : Facts next tokens sessions t) (fd time : ℕ) (target : Endpoint)
    (counted : next ≤ t.selects) (small : t.selects < u64_max) where
  abbrev new : Session
  new = new_session next fd target time

  not_there : find next sessions ≡ none
  not_there = elim (Option-cases (find next sessions)) [
    | inl absent ↦ absent
    | inr (y, there) ↦ absurd (omega (arith, facts.below next y there))
  ]

  new_is : find next (emplace next new sessions) ≡ some new
  new_is = find-emplace_self next new sessions not_there

  differs_from_new : (j : ℕ) (y : Session) → find j sessions ≡ some y → (next == j) ≡ false
  differs_from_new j y h = let lt = facts.below j y h in ground arith

  was_there :
      (j : ℕ) (y : Session)
      → find j (emplace next new sessions) ≡ some y
      → ((next ≡ j) × (y ≡ new)) ⊎ (find j sessions ≡ some y)
  was_there j y h = elim (Bool-cases (next == j)) [
    | inl e ↦
        let j_is = (==_iff next j).0 e in
        let q : some y ≡ some new =
          sym h ∙ ap (λ i. find i (emplace next new sessions)) (sym j_is) ∙ new_is in
        inl (j_is, cc)
    | inr e ↦ inr (sym (find-emplace_ne j next new sessions e) ∙ h)
  ]

  new-IsSound : IsSound next (t.received next) (t.sent next) new
  unfolding contents span
  new-IsSound = record {
    named = refl;
    valid = λ side. record { size_le = omega arith; offset_lt = omega arith; reset = λ e. refl };
    stream = λ side. let (r, s) = facts.fresh next side (omega arith) in rw (r, s);
    counted = λ side. let (r, s) = facts.fresh next side (omega arith) in rw s;
    half_closed = open_ends;
  }
    where
      open_ends :
          (side : Side)
          → (new.ends (other side)).shutdown ≡ true
          → ((new.ends side).eof ≡ true) × ((new.pending side).size ≡ 0)
      open_ends client h = absurd (cc)
      open_ends backend h = absurd (cc)

  pub insert-Facts :
      Facts (add64 next 1) tokens (emplace next new sessions) t
      × (find next (emplace next new sessions) ≡ some new)
  insert-Facts = (
    record {
      numbered = ground arith;
      fresh = λ j side h. facts.fresh j side (ground arith);
      in_order = facts.in_order;
      below = λ j y h. elim (was_there j y h) [
        | inl (e, e') ↦ ground arith
        | inr there ↦ let lt = facts.below j y there in ground arith
      ];
      sound = λ j y h. elim (was_there j y h) [
        | inl (e, e') ↦ rw (← e, e') new-IsSound
        | inr there ↦ facts.sound j y there
      ];
      tokens_valid = facts.tokens_valid;
      owned = λ token target h.
          let (y, there, carries) = facts.owned token target h in
          (
            y,
            find-emplace_ne target.session_id next new sessions (differs_from_new _ y there)
                ∙ there,
            carries,
          );
    },
    new_is,
  )
