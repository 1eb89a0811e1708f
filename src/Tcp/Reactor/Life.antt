-- ===== src/Tcp/Reactor/Life.antt =====
-- The reports on the life of a session of the TCP reactor: `accepted` when it starts, and one more
-- when it is closed. The invariant counts them for each identity.
pub mod Rules
pub mod Closing
pub mod Signals
pub mod Connecting
pub mod Starting
pub mod Traffic
pub mod Rounds
pub mod Told
use mathlib.Core.Path.{◌≡◌, refl, subst}
use mathlib.Core.Option.{some-injective}
use l4_load_balancer_with_xd.Prelude.{
  ◌≢◌, ◌∙◌, ◌⊎◌, ℕ, suc, ◌+◌, ◌≤◌, ◌<◌, Bool, true, false, not, ◌&&◌, Option, none, some, [], ◌∷◌,
  ◌==◌, arith, if◌then◌else◌, nat_eq, u64_max, add64, inl, inr, Bool-cases, Option-cases, ==_iff,
}
use l4_load_balancer_with_xd.Prelude.Map.{
  Map, beq_self, find, erase, emplace, update, find-update_self, find-update_ne, update-none,
  find-erase_self, find-erase_ne, find-emplace_self, find-emplace_ne,
}
use l4_load_balancer_with_xd.Tcp.World.{SessionEvent, Event, quiet, Log, World}
use l4_load_balancer_with_xd.Tcp.World.Call.{session}
use l4_load_balancer_with_xd.Tcp.Reactor.{Session, TcpReactor}
use l4_load_balancer_with_xd.Tcp.Reactor.Facts.{trace}

-- The session callback is told of the start of a session, or of its end.
abbrev pub is_report : Bool → ℕ → Event → Bool
is_report start id (quiet (session e)) =
    (if start then e.accepted else not e.accepted) && e.id == id
is_report start id _ = false

abbrev pub reports : Bool → ℕ → Log → ℕ
reports start id [] = 0
reports start id (e ∷ log) =
    let n = reports start id log in if is_report start id e then suc n else n

-- An event that tells nothing of any session's life.
abbrev pub IsPlain : Event → Type 0
IsPlain e = (start : Bool) (id : ℕ) → is_report start id e ≡ false

-- What is known of an identity, with the session at it and the numbers of its two reports.
pub record Reported (w : World) (next : ℕ) (found : Option Session) (id starts ends : ℕ)
    : Type 0 where
  pub fresh : next ≤ id → (found ≡ none) × (starts ≡ 0) × (ends ≡ 0)
  pub once : (starts ≤ 1) × (ends ≤ 1)
  pub live : (x : Session) → found ≡ some x → (x.id ≡ id) × (ends ≡ 0)
  pub gone : found ≡ none → starts ≤ ends
  pub silent : w.session_callback ≡ none → starts ≡ 0

pub record Alive (w : World) (next : ℕ) (sessions : Map ℕ Session) (log : Log) : Type 0 where
  pub numbered : next ≤ (trace log).selects + 1
  pub each :
      (id : ℕ) → Reported w next (find id sessions) id (reports true id log) (reports false id log)

-- It holds as long as the 64 bits of the identities suffice.
abbrev pub Life : World → TcpReactor → Type 0
Life w s = (trace s.log).selects < u64_max → Alive w s.next_session_id s.sessions s.log

module _ {w : World} {next : ℕ} {sessions : Map ℕ Session} {log : Log} where
  -- A session changes and keeps its identity.
  pub update-Alive :
      (k : ℕ) (f : Session → Session)
      → ((x : Session) → (f x).id ≡ x.id)
      → Alive w next sessions log
      → Alive w next (update k f sessions) log
  update-Alive k f same v = elim (Option-cases (find k sessions)) [
    | inl absent ↦ rw (update-none k f sessions absent) v
    | inr (x, there) ↦ record { numbered = v.numbered; each = each x there }
  ]
    where
      each :
          (x : Session)
          → find k sessions ≡ some x
          → (id : ℕ)
          → Reported w next
              (find id (update k f sessions))
              id
              (reports true id log)
              (reports false id log)
      each x there id = elim (Bool-cases (k == id)) [
        | inl e ↦
            let r = v.each k in
            rw (← (==_iff k id).0 e) (
              rw (find-update_self k f sessions x there) (record {
                fresh = λ h. let (absent, p, q) = r.fresh h in absurd (cc);
                once = r.once;
                live = λ y h.
                    let (named, p) = r.live x there in
                    (rw (← some-injective (f x) y h) (same x ∙ named), p);
                gone = λ h. cc;
                silent = r.silent;
              }))
        | inr e ↦ rw (find-update_ne id k f sessions e) (v.each id)
      ]

  module _ (v : Alive w next sessions log) where
    -- A session that got the next identity.
    pub insert-Alive :
        (x : Session)
        → x.id ≡ next
        → next ≤ (trace log).selects
        → (trace log).selects < u64_max
        → Alive w (add64 next 1) (emplace next x sessions) log
    insert-Alive x named counted few = record { numbered = ground arith; each = each }
      where
        grows : add64 next 1 ≡ next + 1
        grows = omega arith

        each :
            (id : ℕ)
            → Reported w
                (add64 next 1)
                (find id (emplace next x sessions))
                id
                (reports true id log)
                (reports false id log)
        each id = elim (Bool-cases (next == id)) [
          | inl e ↦
              let r = v.each next in
              let (absent, p, q) = r.fresh (omega arith) in
              rw (← (==_iff next id).0 e) (
                rw (find-emplace_self next x sessions absent) (record {
                  fresh = λ h. absurd (omega (arith, grows));
                  once = r.once;
                  live = λ y h. (rw (← some-injective x y h) named, q);
                  gone = λ h. cc;
                  silent = r.silent;
                }))
          | inr e ↦
              let r = v.each id in
              rw (find-emplace_ne id next x sessions e) (record {
                fresh = λ h. r.fresh (omega (arith, grows));
                once = r.once;
                live = r.live;
                gone = r.gone;
                silent = r.silent;
              })
        ]

-- The later log tells of the end of one session, where there is a callback to tell.
pub record Ends (w : World) (k : ℕ) (log log' : Log) : Type 0 where
  pub selects : (trace log').selects ≡ (trace log).selects
  pub starts : (id : ℕ) → reports true id log' ≡ reports true id log
  pub others : (id : ℕ) → k == id ≡ false → reports false id log' ≡ reports false id log
  pub told :
      ((w.session_callback ≡ none) × (reports false k log' ≡ reports false k log))
      ⊎ (reports false k log' ≡ suc (reports false k log))

module _ {w : World} {next : ℕ} {sessions : Map ℕ Session} {log log' : Log} where
  pub erase-Alive :
      (k : ℕ) (x : Session)
      → find k sessions ≡ some x
      → Ends w k log log'
      → Alive w next sessions log
      → Alive w next (erase k sessions) log'
  erase-Alive k x there e v = record {
    numbered = omega (arith, v.numbered, e.selects);
    each = each;
  }
    where
      told_once :
          Reported w next (some x) k (reports true k log) (reports false k log)
          → Reported w next none k (reports true k log) (reports false k log')
      told_once r =
          let (named, open_) = r.live x refl in
          record {
            fresh = λ h. let (absent, p, q) = r.fresh h in absurd (cc);
            once =
                (r.once.0, elim e.told [ inl (off, same) ↦ omega arith | inr more ↦ omega arith ]);
            live = λ y h. absurd (cc);
            gone = λ h. elim e.told [
              | inl (off, same) ↦ let quiet_ = r.silent off in omega arith
              | inr more ↦ let one = r.once.0 in omega arith
            ];
            silent = r.silent;
          }

      each :
          (id : ℕ)
          → Reported w next
              (find id (erase k sessions))
              id
              (reports true id log')
              (reports false id log')
      each id = elim (Bool-cases (k == id)) [
        | inl same ↦ rw (← (==_iff k id).0 same) (
            rw (find-erase_self k sessions, e.starts k)
              (let r = v.each k in told_once (rw there at r)))
        | inr other ↦
            rw (find-erase_ne id k sessions other, e.starts id, e.others id other) (v.each id)
      ]

-- A plain event, or the start of a session that had none.
pub plain-Alive :
    {w : World} {next : ℕ} {sessions : Map ℕ Session} {log : Log} (e : Event)
    → IsPlain e
    → (trace log).selects ≤ (trace (e ∷ log)).selects
    → Alive w next sessions log
    → Alive w next sessions (e ∷ log)
plain-Alive e plain counted v = record {
  numbered = omega (arith, v.numbered);
  each = λ id. rw (plain true id, plain false id) (v.each id);
}

pub start-Alive :
    {w : World} {next : ℕ} {sessions : Map ℕ Session} {log : Log} (k : ℕ) (x : Session)
    (e : SessionEvent)
    → w.session_callback ≢ none
    → e.accepted ≡ true
    → e.id ≡ k
    → find k sessions ≡ some x
    → reports true k log ≡ 0
    → Alive w next sessions log
    → Alive w next sessions (quiet (session e) ∷ log)
start-Alive {w} {next} {sessions} {log} k x e on accepted named there none_yet v = record {
  numbered = v.numbered;
  each = each;
}
  where
    At : ℕ → Type 0
    At id =
        Reported w next (find id sessions) id (reports true id (quiet (session e) ∷ log))
          (reports false id (quiet (session e) ∷ log))

    here : Reported w next (find k sessions) k (reports true k log) (reports false k log) → At k
    here r = rw accepted (
        rw named (
          rw (beq_self k) (record {
            fresh = λ h. let (absent, p, q) = r.fresh h in absurd (cc);
            once = (omega arith, r.once.1);
            live = r.live;
            gone = λ h. absurd (cc);
            silent = λ h. absurd (on h);
          })))

    each : (id : ℕ) → At id
    each id = elim (Bool-cases (k == id)) [
      | inl same ↦ subst At ((==_iff k id).0 same) (here (v.each k))
      | inr other ↦ rw accepted (rw named (rw other (v.each id)))
    ]
