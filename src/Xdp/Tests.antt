-- ===== src/Xdp/Tests.antt =====
-- Publishing two backends, with a kernel that does what it is told and with one that stores a
-- backend wrongly.
use mathlib.Core.Path.{◌≡◌, refl}
use l4_load_balancer_with_xd.Prelude.{
  ◌+◌, ◌≤◌, length, some, arith, ◌≢◌, ◌⊎◌, true, false, List, [], ◌∷◌, ◌==◌, if◌then◌else◌,
}
use l4_load_balancer_with_xd.Prelude.Exec.{ok, thrown, ◌>>=◌}
use l4_load_balancer_with_xd.Config.Endpoint.{Address}
use l4_load_balancer_with_xd.Xdp.Maps.{KernelMaps, Kernel}
use l4_load_balancer_with_xd.Xdp.Sync.{
  XdpConfigValue, XdpBackendValue, empty_xdp_backend, xdp_config_of, synchronize_xdp_config, Mac,
  UdpDsrConfigValue, UdpDsrBackendValue, empty_dsr_backend, valid_dsr_config, valid_dsr_backends,
  synchronize_dsr_config, xdp_config_instance, xdp_backend_instance,
}
use l4_load_balancer_with_xd.Xdp.Sync.Published.{
  IsPublished, synchronize_xdp_lem, synchronize_dsr_lem,
}
use l4_load_balancer_with_xd.Xdp.Sync.Succeeds.{IsHonest, synchronize_xdp_total}
use l4_load_balancer_with_xd.Xdp.Runtime.{
  UdpRuntimeSnapshot, invalid_snapshot, publish_error, valid_candidate, RuntimeMapStore,
  RuntimeKernel, publish_snapshot,
}
use l4_load_balancer_with_xd.Xdp.Runtime.Publish.{IsCommitted, publish_snapshot_lem}

abbrev honest : {C B : Type 0} → Kernel C B
honest = record { fails = λ n. false; stores_config = λ n c. c; stores_backend = λ n b. b }

honest-IsHonest : IsHonest {C = XdpConfigValue} {B = XdpBackendValue} honest
honest-IsHonest = record {
  never_fails = λ n. refl;
  keeps_config = λ n c. refl;
  keeps_backend = λ n b. refl;
}

-- The second write stores nothing.
abbrev forgetful : Kernel XdpConfigValue XdpBackendValue
forgetful = record honest { stores_backend = λ n b. if n == 1 then empty_xdp_backend else b }

abbrev blank : KernelMaps XdpConfigValue XdpBackendValue
blank = record {
  config = record { schema_version = 0; backend_count = 0 };
  backends = λ i. empty_xdp_backend;
  config_frozen = false;
  backends_frozen = false;
  calls = 0;
}

abbrev first : Address
first = record { b0 = 10; b1 = 0; b2 = 0; b3 = 1 }

abbrev second : Address
second = record { b0 = 10; b1 = 0; b2 = 0; b3 = 2 }

abbrev two : List XdpBackendValue
two =
    record { address = first; port = 80; reserved = 0 }
    ∷ record { address = second; port = 80; reserved = 0 }
    ∷ []

synchronize_xdp_lem_example :
    (((synchronize_xdp_config forgetful two blank).0 ≡ ok tt)
      × (length two ≤ 64)
      × IsPublished
          (xdp_config_of two)
          empty_xdp_backend
          two
          (synchronize_xdp_config forgetful two blank).1)
    ⊎ (((synchronize_xdp_config forgetful two blank).0 ≢ ok tt)
        × ((synchronize_xdp_config forgetful two blank).1.config_frozen ≡ false))
synchronize_xdp_lem_example = synchronize_xdp_lem forgetful two blank refl

synchronize_xdp_total_example : (synchronize_xdp_config honest two blank).0 ≡ ok tt
synchronize_xdp_total_example =
    synchronize_xdp_total honest two blank honest-IsHonest (omega arith) refl refl

abbrev mac : Mac
mac = record { m0 = 2; m1 = 0; m2 = 0; m3 = 0; m4 = 0; m5 = 1 }

abbrev vip : UdpDsrConfigValue
vip = record {
  schema_version = 2;
  backend_count = 1;
  vip_address = first;
  vip_port = 53;
  reserved = 0;
}

abbrev target : List UdpDsrBackendValue
target = record { ifindex = 3; destination_mac = mac; source_mac = mac } ∷ []

abbrev blank_dsr : KernelMaps UdpDsrConfigValue UdpDsrBackendValue
blank_dsr = record {
  config = record vip { backend_count = 0 };
  backends = λ i. empty_dsr_backend;
  config_frozen = false;
  backends_frozen = false;
  calls = 0;
}

vip_is_valid : valid_dsr_config vip target ≡ true
vip_is_valid = refl

broadcast_mac_is_refused :
    valid_dsr_backends
      (record { ifindex = 3; destination_mac = record mac { m0 = 255 }; source_mac = mac } ∷ [])
    ≡ false
broadcast_mac_is_refused = refl

synchronize_dsr_lem_example :
    (((synchronize_dsr_config honest vip target blank_dsr).0 ≡ ok tt)
      × (length target ≤ 64)
      × IsPublished vip empty_dsr_backend target
          (synchronize_dsr_config honest vip target blank_dsr).1
      × (valid_dsr_config vip target ≡ true)
      × (valid_dsr_backends target ≡ true))
    ⊎ (((synchronize_dsr_config honest vip target blank_dsr).0 ≢ ok tt)
        × ((synchronize_dsr_config honest vip target blank_dsr).1.config_frozen ≡ false))
synchronize_dsr_lem_example = synchronize_dsr_lem honest vip target blank_dsr refl

abbrev snapshot : UdpRuntimeSnapshot
snapshot = record {
  schema_version = 3;
  backend_count = 1;
  generation = 7;
  vip_address = first;
  vip_port = 53;
  reserved = 0;
  backends = target;
}

-- Generation 6 is published through the map 11; the kernel keeps the blank snapshot elsewhere.
abbrev published_six : RuntimeMapStore
published_six = record {
  active_fd = some 11;
  generation = 6;
  closed = [];
  contents = λ fd. record snapshot { generation = 6 };
  outer = some 11;
  calls = 0;
}

-- The map created by the call of number `n` gets the descriptor `n + 20`, and the identity 5.
abbrev obedient : RuntimeKernel
obedient = record {
  fails = λ n. false;
  creates = λ n. n + 20;
  stores = λ n s. s;
  metadata_matches = λ n. true;
  refuses_write = λ n. true;
  inner_id = λ n. 5;
  published_id = λ n. 5;
}

-- The map in the outer slot is not the one that was put there.
abbrev usurped : RuntimeKernel
usurped = record obedient { published_id = λ n. 9 }

next_generation_is_published : (publish_snapshot obedient snapshot published_six).0 ≡ ok tt
unfolding publish_snapshot ◌>>=◌ valid_candidate
next_generation_is_published = refl

previous_map_is_closed : (publish_snapshot obedient snapshot published_six).1.closed ≡ 11 ∷ []
unfolding publish_snapshot ◌>>=◌ valid_candidate
previous_map_is_closed = refl

same_generation_is_refused :
    (publish_snapshot obedient (record snapshot { generation = 6 }) published_six).0
    ≡ thrown invalid_snapshot
unfolding publish_snapshot ◌>>=◌ valid_candidate
same_generation_is_refused = refl

publish_snapshot_lem_example :
    ((((publish_snapshot usurped snapshot published_six).0 ≡ ok tt)
        ⊎ ((publish_snapshot usurped snapshot published_six).0 ≡ thrown publish_error))
      × IsCommitted snapshot published_six (publish_snapshot usurped snapshot published_six).1)
    ⊎ (((publish_snapshot usurped snapshot published_six).0 ≢ ok tt)
        × ((publish_snapshot usurped snapshot published_six).0 ≢ thrown publish_error)
        × ((publish_snapshot usurped snapshot published_six).1.active_fd ≡ published_six.active_fd)
        × ((publish_snapshot usurped snapshot published_six).1.generation
            ≡ published_six.generation)
        × ((publish_snapshot usurped snapshot published_six).1.outer ≡ published_six.outer))
publish_snapshot_lem_example = publish_snapshot_lem usurped snapshot published_six (omega arith)
