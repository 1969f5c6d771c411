-- ===== src/Net/Tcp/Tests.antt =====
-- Runs of kernel/net/tcp/tcp.c: the client at port 49152 and the server at port 80.
use mathlib.Core.List.{Memᴰ}
use grace_os.Net.Ethernet.{Mac, NetDevice}
use grace_os.Net.Tcp.{
  established, TcpConn, Segment, segment, tcp_receive, tcp_poll, tcp_recv, tcp_send,
  receive_established, receive_syn_sent, push_bytes, psh, ack_flag, fin, syn,
}
use grace_os.Net.Tcp.Ring.{Buffers}
use grace_os.Net.Tcp.Run.{Event, arrives, reads, closes, run, IsOpened, AllCarry}
use grace_os.Net.Tcp.Ends.{send_all, joined, read-sent}
use grace_os.Net.Tcp.Steps.{Taken, room_for, Stays, tcp_receive-next, early_fin_loses}
use grace_os.Net.Tcp.Connect.{
  TcpGlobals, sent, tcp_connect, generate_isn, send_syn, wait_syn_ack, new_conn, alloc_local_port,
}
use grace_os.Net.Tcp.Connect.Opened.{Tells, tcp_connect-read}
use grace_os.Net.Tcp.Wire.{tcp_send_segment, poll_segment}
use grace_os.Net.Tcp.Wire.Deliver.{tcp_send_segment-poll}
use grace_os.Text.{Prefix}
use grace_os.Prelude.{
  ℕ, ◌+◌, ◌≡◌, refl, inl, inr, Bool, true, false, some, List, [], ◌∷◌, ◌++◌, arith, take,
}

abbrev server : TcpConn
server = record {
  state = established;
  remote_ip = 0x0A00020F;
  remote_port = 49152;
  local_port = 80;
  seq = 1000;
  ack = 500;
  remote_seq = 499;
  recv_buf = λ i. 0;
  recv_head = 0;
  recv_tail = 0;
  recv_closed = false;
}

abbrev client : TcpConn
client = record {
  state = established;
  remote_ip = 0x0A000202;
  remote_port = 80;
  local_port = 49152;
  seq = 500;
  ack = 1000;
  remote_seq = 999;
  recv_buf = λ i. 0;
  recv_head = 0;
  recv_tail = 0;
  recv_closed = false;
}

client-IsOpened : IsOpened 1000 client
client-IsOpened = record { state = refl; ack = omega arith; head_in = omega arith; empty = refl }

client-Buffers : Buffers client []
client-Buffers = record {
  head_in = omega arith;
  tail = omega arith;
  room = omega arith;
  each = λ i lt. absurd (omega (arith, lt));
}

abbrev first : List ℕ
first = 71 ∷ 114 ∷ []

abbrev second : List ℕ
second = 97 ∷ 99 ∷ 101 ∷ []

abbrev pieces : List (List ℕ)
pieces = first ∷ second ∷ []

abbrev first_segment : Segment
first_segment = segment server (psh + ack_flag) first

abbrev second_segment : Segment
second_segment = segment (record server { seq = 1002 }) (psh + ack_flag) second

-- The second segment arrives first, and again.
abbrev events : List Event
events =
    arrives second_segment
    ∷ arrives first_segment
    ∷ reads 1
    ∷ arrives second_segment
    ∷ reads 9
    ∷ closes
    ∷ []

all_read : (run (client, []) events).1 ≡ first ++ second
unfolding run tcp_recv tcp_receive segment receive_established push_bytes
all_read = refl

first-Mem : Memᴰ first_segment (send_all server pieces)
unfolding send_all
first-Mem = Memᴰ.head refl

second-Mem : Memᴰ second_segment (send_all server pieces)
unfolding send_all tcp_send
second-Mem = Memᴰ.tail (Memᴰ.head refl)

read-sent_example : Prefix (run (client, []) events).1 (joined pieces)
read-sent_example =
    read-sent server client pieces events refl (omega arith) client-IsOpened (omega arith)
      (inr second-Mem, (inr first-Mem, (tt, (inr second-Mem, (tt, (tt, tt))))))

tcp_receive-next_example :
    Taken client [] (take (room_for [] first) first) (tcp_receive client first_segment)
unfolding segment
tcp_receive-next_example =
    tcp_receive-next client first_segment [] refl client-Buffers (refl, refl) refl refl refl
      (omega arith) refl

-- The FIN behind the five bytes arrives before them.
abbrev last_segment : Segment
last_segment = segment (record server { seq = 1005 }) (fin + ack_flag) []

early_fin_loses_example :
    Stays client (tcp_poll client (last_segment ∷ first_segment ∷ second_segment ∷ []))
unfolding segment
early_fin_loses_example =
    early_fin_loses client last_segment (first_segment ∷ second_segment ∷ []) refl (refl, refl) refl
      refl (omega arith)

abbrev globals : TcpGlobals
globals = record { isn_seed = 0xdeadbeef; ephemeral_port = 49152 }

-- The answer to the first SYN.
abbrev syn_ack : Segment
syn_ack = record {
  src_port = 80;
  dst_port = 49152;
  seq_num = 999;
  ack_num = (generate_isn 0xdeadbeef 0x0A000202 80 49152).1 + 1;
  flags = syn + ack_flag;
  payload = [];
}

connected :
    (tcp_connect true client globals (λ i. sent) ((syn_ack ∷ []) ∷ []) 0x0A000202 80).0 ≡ true
unfolding tcp_connect send_syn wait_syn_ack tcp_poll tcp_receive new_conn alloc_local_port
    receive_syn_sent generate_isn
connected = refl

tcp_connect-read_example :
    (ok : Bool) × (conn : TcpConn) × (g' : TcpGlobals) × (tcp_connect true client globals
        (λ i. sent)
        ((syn_ack ∷ []) ∷ [])
        0x0A000202
        80
      ≡ (ok, conn, g'))
    × (true ≡ false → (ok ≡ false) × (conn ≡ client) × (g' ≡ globals))
    × (true ≡ true → Tells (ok, conn))
    × (ok ≡ true
        → (es : List Event) → AllCarry (first ++ second) 1000 es
        → Prefix (run (conn, []) es).1 (first ++ second))
tcp_connect-read_example =
    tcp_connect-read true (first ++ second) 1000 client globals (λ i. sent) ((syn_ack ∷ []) ∷ [])
      0x0A000202 80 (omega arith) (λ j. tt) (((inl refl, λ e. omega arith), tt), tt)

abbrev device : NetDevice
device = record {
  mac = record { m0 = 0x52; m1 = 0x55; m2 = 10; m3 = 0; m4 = 2; m5 = 2 };
  ip = 0x0A000202;
  netmask = 0xFFFFFF00;
  gateway = 0x0A000202;
}

abbrev client_mac : Mac
client_mac = record { m0 = 0x52; m1 = 0x54; m2 = 0; m3 = 0x12; m4 = 0x34; m5 = 0x56 }

tcp_send_segment-poll_example :
    (frame : List ℕ) × (tcp_send_segment device (λ ip. some client_mac) 7 server 24 first
      ≡ some frame)
    × (poll_segment (frame ++ (0 ∷ [])) ≡ some (segment server 24 first))
tcp_send_segment-poll_example =
    tcp_send_segment-poll device (λ ip. some client_mac) 7 server 24 first (0 ∷ []) client_mac
      (omega arith) (omega arith, omega arith, omega arith, omega arith) (omega arith) (omega arith)
      refl
