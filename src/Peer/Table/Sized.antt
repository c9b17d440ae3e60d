-- ===== src/Peer/Table/Sized.antt =====
-- The send buffers of the whole table of src/peer_state.c, and the descriptors that a call is not about.
use concurrent_servers.Prelude.{
  ℕ, ◌≡◌, sym, ap, ◌∙◌, subst, inl, inr, some, arith, ◌==◌, Bool-cases, length, get_elem?,
}
use concurrent_servers.Peer.{PeerState, FdStatus, sendbuf_size}
use concurrent_servers.Peer.Runs.{Run, Run-Follows}
use concurrent_servers.Peer.Table.{Table}
use concurrent_servers.Peer.Table.Live.{Live, Elsewhere}

abbrev pub IsSized : Table → Type 0
IsSized t =
    (fd : ℕ) (p : PeerState) → get_elem? t.peers fd ≡ some p → length p.sendbuf ≡ sendbuf_size

pub Elsewhere-IsSized :
    (fd : ℕ) {status : FdStatus} (t t' : Table)
    → IsSized t
    → Elsewhere fd t t'
    → Live fd status t'
    → IsSized t'
Elsewhere-IsSized fd t t' sized e l j p at = elim (Bool-cases (j == fd)) [
  | inl same ↦ (Run-Follows p (here (ground (arith, same)))).size
  | inr other ↦ sized j p (sym (e.peers j (ground (arith, other))) ∙ at)
]
  where
    here : j ≡ fd → Run (t'.sockets fd).got (t'.sockets fd).wire p
    here same = subst (Run (t'.sockets fd).got (t'.sockets fd).wire) (the_one l.slot same) l.run
      where
        the_one : get_elem? t'.peers fd ≡ some l.peer → j ≡ fd → l.peer ≡ p
        the_one slot same = cc

pub Live-elsewhere :
    {j : ℕ} {status : FdStatus} (t t' : Table)
    → t'.sockets j ≡ t.sockets j
    → get_elem? t'.peers j ≡ get_elem? t.peers j
    → Live j status t
    → Live j status t'
Live-elsewhere t t' same same' l = record {
  is_open = ap (λ x. x.is_open) same ∙ l.is_open;
  peer = l.peer;
  slot = same' ∙ l.slot;
  run = subst (λ x. Run x.got x.wire l.peer) (sym same) l.run;
  apt = l.apt;
}
