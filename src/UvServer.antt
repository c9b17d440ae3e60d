-- ===== src/UvServer.antt =====
-- src/uv_server.c: the callbacks of the echo server on libuv. libuv is a parameter: the order of the
-- arguments of a run is the order in which it runs the callbacks, and its answers are arguments. A
-- `peer_state_t` that has been freed is `none`.
pub mod Consuming
pub mod Killing
pub mod Rounds
pub mod Resending
pub mod Greeting
pub mod Tests
use concurrent_servers.Prelude.{
  remove, ℕ, suc, ◌+◌, ◌-◌, List, [], ◌∷◌, ◌++◌, Option, none, some, Bool, true, false, ◌==◌, ◌&&◌,
  ltb, leb, if◌then◌else◌, length, take, get_elem?, set, write_at,
}
use concurrent_servers.Sys.{add_u8}
use concurrent_servers.Exec.{Exec, done, died, fault, ◌⟫=◌, checked}
use concurrent_servers.Framing.{caret, dollar, star}

abbrev pub sendbuf_size : ℕ
sendbuf_size = 1024

pub data ProcessingState : Type 0 where
  initial_ack wait_for_msg in_msg : ProcessingState

-- `peer_state_t`, with the bytes that have been passed to uv_write for the peer and the number of
-- write requests whose callback is still to come.
pub record PeerState : Type 0 where
  pub state : ProcessingState
  pub sendbuf : List ℕ
  pub sendbuf_end : ℕ
  pub sent : List ℕ
  pub writing : ℕ

-- The clients by their handle, the handles whose close callback is still to come, and whether uv_stop
-- has been called.
pub record Loop : Type 0 where
  pub clients : List (Option PeerState)
  pub closing : List ℕ
  pub stopped : Bool

-- client->data, which must not have been freed.
abbrev pub peer_of : ℕ → Loop → Exec PeerState
peer_of client l = checked (get_elem? l.clients client) ⟫= λ data_field. checked data_field

abbrev pub with_peer : ℕ → PeerState → Loop → Loop
with_peer client p l = record l { clients = set l.clients client (some p) }

-- The switch of `on_peer_read` on one byte; a failing assertion ends the process.
pub consume_byte : ProcessingState → ℕ → PeerState → Exec PeerState
consume_byte initial_ack c p = died
consume_byte wait_for_msg c p = done (if c == caret then record p { state = in_msg } else p)
consume_byte in_msg c p =
    if c == dollar
    then done (record p { state = wait_for_msg })
    else if ltb p.sendbuf_end sendbuf_size
    then (checked (write_at p.sendbuf p.sendbuf_end (add_u8 c 1)) ⟫= λ buf.
        done (record p { sendbuf = buf; sendbuf_end = p.sendbuf_end + 1 }))
    else died

pub consume : List ℕ → PeerState → Exec PeerState
consume [] p = done p
consume (c ∷ cs) p = consume_byte p.state c p ⟫= consume cs

-- uv_write of the send buffer; `status` is whether the call succeeds.
pub write_sendbuf : Bool → PeerState → Exec PeerState
write_sendbuf false p = died
write_sendbuf true p =
    done (record p { sent = p.sent ++ take p.sendbuf_end p.sendbuf; writing = p.writing + 1 })

-- What `on_peer_read` does with bytes once the acknowledgement has been sent.
pub reply : Bool → PeerState → Exec PeerState
reply status p = if ltb 0 p.sendbuf_end then write_sendbuf status p else done p

pub on_bytes : Bool → ProcessingState → List ℕ → PeerState → Exec PeerState
on_bytes status initial_ack bytes p = done p
on_bytes status _ bytes p = consume bytes p ⟫= reply status

-- nread < 0, nread = 0, or the bytes.
pub data PeerRead : Type 0 where
  read_error nothing_read : PeerRead
  got : List ℕ → PeerRead

pub on_peer_read : Bool → ℕ → PeerRead → Loop → Exec Loop
on_peer_read status client read_error l = done (record l { closing = l.closing ++ (client ∷ []) })
on_peer_read status client nothing_read l = done l
on_peer_read status client (got bytes) l =
    peer_of client l ⟫= λ p. on_bytes status p.state bytes p ⟫= λ p'. done (with_peer client p' l)

-- The last three bytes of the send buffer are "XYZ".
abbrev pub is_at : List ℕ → ℕ → ℕ → Bool
is_at buf i c = elim (get_elem? buf i) [ none ↦ false | some x ↦ x == c ]

pub is_kill : PeerState → Bool
is_kill p =
    leb 3 p.sendbuf_end
    && is_at p.sendbuf (p.sendbuf_end - 3) b'X'
    && is_at p.sendbuf (p.sendbuf_end - 2) b'Y'
    && is_at p.sendbuf (p.sendbuf_end - 1) b'Z'

pub wrote : ℕ → PeerState → Loop → Loop
wrote client p l =
    if is_kill p
    then record l { clients = set l.clients client none; stopped = true }
    else with_peer client (record p { sendbuf_end = 0; writing = p.writing - 1 }) l

-- `status` is whether libuv reports success.
pub on_wrote_buf : Bool → ℕ → Loop → Exec Loop
on_wrote_buf false client l = died
on_wrote_buf true client l = peer_of client l ⟫= λ p. done (wrote client p l)

-- `reading` is whether uv_read_start succeeds.
pub on_wrote_init_ack : Bool → Bool → ℕ → Loop → Exec Loop
on_wrote_init_ack false reading client l = died
on_wrote_init_ack true reading client l = peer_of client l ⟫= λ p.
    if reading
    then done (
        with_peer client
          (record p { state = wait_for_msg; sendbuf_end = 0; writing = p.writing - 1 }) l)
    else died

-- What libuv answers when a connection comes in: of the calls, all must succeed but uv_accept.
pub data Connected : Type 0 where
  connection_error : Connected
  init_failed refused peername_failed write_failed : Connected
  connected : List ℕ → Connected

-- A fresh array comes with `connected`.
pub on_peer_connected : Connected → Loop → Exec Loop
on_peer_connected connection_error l = done l
on_peer_connected init_failed l = died
on_peer_connected refused l = done l
on_peer_connected peername_failed l = died
on_peer_connected write_failed l = died
on_peer_connected (connected buf) l = checked (write_at buf 0 star) ⟫= λ sendbuf.
    write_sendbuf true
      (record { state = initial_ack; sendbuf = sendbuf; sendbuf_end = 1; sent = []; writing = 0 })
    ⟫= λ p. done (record l { clients = l.clients ++ (some p ∷ []) })

pub on_client_closed : ℕ → Loop → Exec Loop
on_client_closed client l =
    done (record l { clients = set l.clients client none; closing = remove client l.closing })
