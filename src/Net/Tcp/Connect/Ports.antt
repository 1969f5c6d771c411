-- ===== src/Net/Tcp/Connect/Ports.antt =====
-- kernel/net/tcp/tcp.c: the local ports that are given out.
use grace_os.Net.Tcp.Connect.{alloc_local_port}
use grace_os.Prelude.{ℕ, zero, suc, ◌+◌, ◌-◌, ◌%◌, ◌≤◌, ◌<◌, ◌≡◌, ◌∙◌, ◌≢◌, arith}

-- The counter after this many calls.
unfoldable pub counter_after : ℕ → ℕ → ℕ
counter_after zero port = port
counter_after (suc n) port = counter_after n (alloc_local_port port).0

-- An ephemeral port that the counter reaches.
abbrev pub IsEphemeral : ℕ → Type 0
IsEphemeral port = (49152 ≤ port) × (port ≤ 65534)

next_port :
    (port : ℕ) → IsEphemeral port → (alloc_local_port port).0 ≡ 49152 + (port - 49152 + 1) % 16383
unfolding alloc_local_port
next_port port (lo, hi) = ground (arith, lo, hi)

counter_after_lem :
    (n port : ℕ) → IsEphemeral port → counter_after n port ≡ 49152 + (port - 49152 + n) % 16383
unfolding counter_after
counter_after_lem zero port (lo, hi) = omega (arith, lo, hi)
counter_after_lem (suc n) port p =
    let e = next_port port p in
    counter_after_lem n (alloc_local_port port).0 (omega (arith, e), omega (arith, e))
    ∙ omega (arith, e)

-- From an ephemeral port on, the calls give out the 16383 ports from 49152 to 65534 in turn, so two calls that are
-- fewer than 16383 apart give different ports.
pub alloc_local_port-differ :
    (port n m : ℕ)
    → IsEphemeral port
    → n < m
    → m < n + 16383
    → IsEphemeral (alloc_local_port (counter_after n port)).1
      × ((alloc_local_port (counter_after n port)).1 ≢ (alloc_local_port (counter_after m port)).1)
unfolding alloc_local_port
alloc_local_port-differ port n m p lt near =
    let first = counter_after_lem n port p in
    let second = counter_after_lem m port p in
    ((omega (arith, first), omega (arith, first)), λ e. omega (arith, first, second, e, lt, near))
