-- ===== src/Isprime/Tests.antt =====
-- Examples of src/uv_isprime_server.c.
use concurrent_servers.Prelude.{
  ℕ, ◌≡◌, refl, [], ◌∷◌, ◌++◌, some, true, false, arith, replicate, length-replicate,
}
use concurrent_servers.Exec.{fault, ◌⟫=◌}
use concurrent_servers.Text.{codes, decimal}
use concurrent_servers.Isprime.{isprime, isprime_from}
use concurrent_servers.Isprime.Primality.{Decides, isprime-Decides}
use concurrent_servers.Isprime.Serving.{
  PeerState, Loop, got, read_error, read_number, on_peer_read, on_work_submitted, on_client_closed,
}
use concurrent_servers.Isprime.Serving.Reading.{read_number-decimal}
use concurrent_servers.Isprime.Serving.Answers.{
  Answers, work, on_peer_read-Answers, work_after_close,
}

-- 1 is called prime.
isprime_one : isprime 1 1 ≡ some true
unfolding isprime isprime_from
isprime_one = refl

isprime_runs : isprime 10 91 ≡ some false
unfolding isprime isprime_from
isprime_runs = refl

isprime-Decides_example : Decides 97 (isprime 5 97)
isprime-Decides_example =
    isprime-Decides 4 97 11 (omega arith) (omega arith) (omega arith) (omega arith)

read_number-decimal_example : read_number (decimal 1234 ++ codes "\n5") 0 ≡ 1234
read_number-decimal_example = read_number-decimal 1234 (codes "\n5") (omega arith) refl

abbrev fresh : PeerState
fresh = record { number = 0; sendbuf = replicate 1024 0; sendbuf_end = 0 }

abbrev one_client : Loop
one_client = record { clients = some fresh ∷ []; works = []; closing = []; written = [] }

read_ninety_seven : read_number (codes "97\n") 0 ≡ 97
unfolding read_number
read_ninety_seven = refl

on_peer_read-Answers_example :
    Answers
      (read_number (codes "97\n") 0)
      0
      one_client
      (on_peer_read true 5 true 0 (got (codes "97\n")) one_client)
    × Answers
        (read_number (codes "97\n") 0)
        0
        one_client
        (on_peer_read false 5 true 0 (got (codes "97\n")) one_client ⟫= work 5 0)
on_peer_read-Answers_example =
    on_peer_read-Answers 4 0 one_client fresh (codes "97\n") refl
      (omega (arith, length-replicate {A = ℕ} 1024 0))
      (record {
        root = 11;
        above_one = omega (arith, read_ninety_seven);
        below = omega (arith, read_ninety_seven);
        root_lem = omega arith;
        past = omega (arith, read_ninety_seven);
      })

work_after_close_example :
    (on_peer_read false 5 true 0 (got (codes "97\n")) one_client
      ⟫= on_peer_read false 5 true 0 read_error
      ⟫= on_client_closed 0
      ⟫= on_work_submitted 5 0)
    ≡ fault
work_after_close_example = work_after_close 5 0 one_client fresh (codes "97\n") refl
