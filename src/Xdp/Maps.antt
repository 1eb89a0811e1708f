-- ===== src/Xdp/Maps.antt =====
-- The configuration map and the map of backends, and the methods that read, write and freeze them.
-- The two stores of the source differ only in the types of the values, which are parameters here.
-- The kernel may refuse any call, and may store another value than the one that it was given.
use l4_load_balancer_with_xd.Prelude.{ℕ, suc, Bool, true, ◌==◌, if◌then◌else◌}
use l4_load_balancer_with_xd.Prelude.Exec.{Exec, pure, throw, gets, modify, ◌>>=◌, ◌>>◌}

pub data Fault : Type 0 where
  call_failed too_many invalid_configuration invalid_backend config_mismatch : Fault
  backend_mismatch : ℕ → Fault

pub record KernelMaps (C B : Type 0) : Type 0 where
  pub config : C
  pub backends : ℕ → B
  pub config_frozen : Bool
  pub backends_frozen : Bool
  -- the number of system calls before
  pub calls : ℕ

-- What the kernel does at each call.
pub record Kernel (C B : Type 0) : Type 0 where
  pub fails : ℕ → Bool
  pub stores_config : ℕ → C → C
  pub stores_backend : ℕ → B → B

module _ {C B : Type 0} (k : Kernel C B) where
  abbrev pub Action : Type 0 → Type 0
  Action A = Exec (KernelMaps C B) Fault A

  abbrev count_call : KernelMaps C B → KernelMaps C B
  count_call m = record m { calls = suc m.calls }

  -- A system call; its number is the result.
  unfoldable pub system_call : Action ℕ
  system_call = do
    n ← gets (λ m. m.calls)
    modify count_call
    if k.fails n then throw call_failed else pure n

  -- `bpf_map_update_elem` fails on a frozen map.
  unfoldable pub write_backend : ℕ → B → Action (Unit {0})
  unfolding system_call
  write_backend index value = do
    n ← system_call
    frozen ← gets (λ m. m.backends_frozen)
    if frozen
        then throw call_failed
        else modify (λ m. record m {
          backends = λ i. if i == index then k.stores_backend n value else m.backends i;
        })

  unfoldable pub write_config : C → Action (Unit {0})
  unfolding system_call
  write_config value = do
    n ← system_call
    frozen ← gets (λ m. m.config_frozen)
    if frozen
        then throw call_failed
        else modify (λ m. record m { config = k.stores_config n value })

  unfoldable pub read_backend : ℕ → Action B
  unfolding system_call
  read_backend index = system_call >> gets (λ m. m.backends index)

  unfoldable pub read_config : Action C
  unfolding system_call
  read_config = system_call >> gets (λ m. m.config)

  -- `bpf_map_freeze` fails on a map that is frozen already.
  unfoldable pub freeze_backends : Action (Unit {0})
  unfolding system_call
  freeze_backends = do
    n ← system_call
    frozen ← gets (λ m. m.backends_frozen)
    if frozen then throw call_failed else modify (λ m. record m { backends_frozen = true })

  unfoldable pub freeze_config : Action (Unit {0})
  unfolding system_call
  freeze_config = do
    n ← system_call
    frozen ← gets (λ m. m.config_frozen)
    if frozen then throw call_failed else modify (λ m. record m { config_frozen = true })
