-- ===== src/Isprime/Serving.antt =====
-- src/uv_isprime_server.c, the callbacks. libuv runs on_work_submitted in a thread of its own and
-- on_work_completed and on_client_closed on the loop, some time after the call that asks for them: an
-- order of the calls is an order of the callbacks. A `peer_state_t` that has been freed is `none`.
pub mod Answers
pub mod Reading
use concurrent_servers.Prelude.{
  ℕ, zero, suc, ◌+◌, ◌-◌, ◌*◌, ◌%◌, ◌^◌, List, [], ◌∷◌, ◌++◌, Option, none, some, Bool, true, false,
  ◌==◌, ◌&&◌, leb, ltb, if◌then◌else◌, take, get_elem?, set, write_at,
}
use concurrent_servers.Sys.{add_u64}
use concurrent_servers.Exec.{Exec, done, died, fault, ◌⟫=◌, checked}
use concurrent_servers.Text.{codes}
use concurrent_servers.Isprime.{mul_u64, isprime}

abbrev pub sendbuf_size : ℕ
sendbuf_size = 1024

-- `client` of the source is the index of the peer.
pub record PeerState : Type 0 where
  pub number : ℕ
  pub sendbuf : List ℕ
  pub sendbuf_end : ℕ

-- The clients by their handle; the work requests and the close callbacks that are still to come, and
-- what has been passed to uv_write, with its client.
pub record Loop : Type 0 where
  pub clients : List (Option PeerState)
  pub works : List ℕ
  pub closing : List ℕ
  pub written : List (ℕ × List ℕ)

-- The loop of `set_peer_sendbuf` at index `i`; the assertion keeps it within the array.
pub fill_sendbuf : List ℕ → ℕ → PeerState → Exec PeerState
fill_sendbuf [] i p = done (record p { sendbuf_end = i })
fill_sendbuf (c ∷ cs) i p = elim (write_at p.sendbuf i c) [
  | none ↦ died
  | some buf ↦ fill_sendbuf cs (i + 1) (record p { sendbuf = buf })
]

pub set_peer_sendbuf : List ℕ → PeerState → Exec PeerState
set_peer_sendbuf str p = fill_sendbuf str 0 p

-- if (isprime(number)) set_peer_sendbuf(peerstate, "prime\n") else ...; isprime that runs out of fuel
-- counts as a fault.
pub set_verdict : ℕ → PeerState → Exec PeerState
set_verdict fuel p = checked (isprime fuel p.number) ⟫= λ is_prime.
    set_peer_sendbuf (if is_prime then codes "prime\n" else codes "composite\n") p

-- client->data, which must not have been freed.
abbrev pub peer_of : ℕ → Loop → Exec PeerState
peer_of client l = checked (get_elem? l.clients client) ⟫= λ data_field. checked data_field

abbrev pub with_peer : ℕ → PeerState → Loop → Loop
with_peer client p l = record l { clients = set l.clients client (some p) }

-- uv_write of the send buffer. `status` is whether the call succeeds.
pub write_sendbuf : Bool → ℕ → PeerState → Loop → Exec Loop
write_sendbuf false client p l = died
write_sendbuf true client p l =
    done (record l { written = l.written ++ ((client, take p.sendbuf_end p.sendbuf) ∷ []) })

abbrev pub is_digit : ℕ → Bool
is_digit c = leb b'0' c && leb c b'9'

-- The loop over the request.
unfoldable pub read_number : List ℕ → ℕ → ℕ
read_number [] number = number
read_number (c ∷ cs) number =
    let rest = read_number cs (add_u64 (mul_u64 number 10) (c - b'0')) in
    if is_digit c then rest else number

-- nread < 0, nread = 0, or the bytes.
pub data PeerRead : Type 0 where
  read_error nothing_read : PeerRead
  got : List ℕ → PeerRead

-- The end of `on_peer_read` in either mode; `status` is whether uv_write or uv_queue_work succeeds.
pub answer_request : Bool → ℕ → Bool → ℕ → PeerState → Loop → Exec Loop
answer_request true fuel status client p l =
    set_verdict fuel p ⟫= λ p'. write_sendbuf status client p' (with_peer client p' l)
answer_request false fuel false client p l = died
answer_request false fuel true client p l =
    done (with_peer client p (record l { works = l.works ++ (client ∷ []) }))

-- `block` is MODE=BLOCK.
pub on_peer_read : Bool → ℕ → Bool → ℕ → PeerRead → Loop → Exec Loop
on_peer_read block fuel status client read_error l =
    done (record l { closing = l.closing ++ (client ∷ []) })
on_peer_read block fuel status client nothing_read l = done l
on_peer_read block fuel status client (got bytes) l = peer_of client l ⟫= λ p.
    answer_request block fuel status client (record p { number = read_number bytes 0 }) l

pub on_work_submitted : ℕ → ℕ → Loop → Exec Loop
on_work_submitted fuel client l =
    peer_of client l ⟫= λ p. set_verdict fuel p ⟫= λ p'. done (with_peer client p' l)

-- The work request that is done leaves the list.
abbrev pub without : ℕ → List ℕ → List ℕ
without c [] = []
without c (x ∷ xs) = if x == c then xs else x ∷ without c xs

-- `completed` is whether libuv reports success, `status` whether uv_write succeeds.
pub on_work_completed : Bool → Bool → ℕ → Loop → Exec Loop
on_work_completed false status client l = died
on_work_completed true status client l = peer_of client l ⟫= λ p.
    write_sendbuf status client p (record l { works = without client l.works })

-- The state of the peer and the handle are freed.
pub on_client_closed : ℕ → Loop → Exec Loop
on_client_closed client l =
    done (record l { clients = set l.clients client none; closing = without client l.closing })

-- `status` of the write request.
pub on_sent_response : Bool → Loop → Exec Loop
on_sent_response false l = died
on_sent_response true l = done l

-- What libuv answers when a connection comes in: of the calls, all must succeed but uv_accept.
pub data Connected : Type 0 where
  connection_error : Connected
  init_failed refused peername_failed read_start_failed : Connected
  connected : List ℕ → Connected

-- The new handle is the next index; `refused` is closed again. A fresh array comes with `connected`.
pub on_peer_connected : Connected → Loop → Exec Loop
on_peer_connected connection_error l = done l
on_peer_connected init_failed l = died
on_peer_connected refused l = done l
on_peer_connected peername_failed l = died
on_peer_connected read_start_failed l = died
on_peer_connected (connected buf) l = done (record l {
  clients = l.clients ++ (some (record { number = 0; sendbuf = buf; sendbuf_end = 0 }) ∷ []);
})
