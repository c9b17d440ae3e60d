-- ===== src/Threadpool/Arguments.antt =====
-- src/threadpool_server.c: `parse_port` and the arguments of `main`.
pub mod Denoting
pub mod Ports
use concurrent_servers.Prelude.{
  ℕ, zero, suc, ◌+◌, ◌-◌, ◌*◌, ◌^◌, ◌≤◌, ◌<◌, ◌≡◌, ◌≢◌, ◌↔◌, refl, sym, ap, ◌∙◌, subst, ◌⊎◌, inl,
  inr, List, [], ◌∷◌, ◌++◌, Option, none, some, Bool, true, false, not, ◌==◌, ◌&&◌, ◌||◌, arith,
  leb, ltb, if◌then◌else◌, Bool-cases, length, get_elem?, All, ℤ, pos, negsuc, append_assoc,
  append-nil,
}
use concurrent_servers.Exec.{Exec, done, died, ◌⟫=◌}
use concurrent_servers.Sys.Numbers.{
  atoi, number_or, below_one, is_space, is_digit, skip_space, read_sign, read_digits, starts_digit,
  with_sign, Strtol, of_digits, read_signed, strtol,
}

abbrev pub is_empty : List ℕ → Bool
is_empty [] = true
is_empty (c ∷ cs) = false

-- What `parse_port` does with the answer of strtol.
unfoldable pub check_range : ℤ → Exec ℕ
check_range (pos n) = if ltb 65535 n then died else done n
check_range (negsuc n) = died

unfoldable pub check_port : Strtol → Exec ℕ
check_port r =
    if r.out_of_range || (not r.parsed || not (is_empty r.rest)) then died else check_range r.value

-- `none` is the null pointer.
unfoldable pub parse_port : Option (List ℕ) → ℕ → Exec ℕ
parse_port none fallback = done fallback
parse_port (some []) fallback = done fallback
parse_port (some (c ∷ cs)) fallback = check_port (strtol (c ∷ cs))

abbrev pub default_port : ℕ
default_port = 9090

abbrev pub default_workers : ℤ
default_workers = pos 4

abbrev pub default_queue_depth : ℤ
default_queue_depth = pos 64

abbrev pub default_metrics_port : ℕ
default_metrics_port = 9110

pub record Settings : Type 0 where
  pub portnum : ℕ
  pub num_workers : ℤ
  pub queue_depth : ℤ
  pub metrics_port : ℕ

-- The argument of this index, if there are so many: `args` are argv[1] and on.
abbrev pub port_or : Option (List ℕ) → ℕ → ℕ → Exec ℕ
port_or none fallback otherwise = done otherwise
port_or (some text) fallback otherwise = parse_port (some text) fallback

unfoldable pub check_settings : Settings → Exec Settings
check_settings s = if below_one s.num_workers || below_one s.queue_depth then died else done s

-- `main` up to the check of its numbers; `env` is METRICS_PORT.
unfoldable pub parse_arguments : List (List ℕ) → Option (List ℕ) → Exec Settings
parse_arguments args env = parse_port env default_metrics_port ⟫= λ env_port.
    port_or (get_elem? args 0) default_port default_port ⟫= λ portnum.
    port_or (get_elem? args 3) default_metrics_port env_port ⟫= λ metrics_port.
    check_settings (record {
      portnum = portnum;
      num_workers = number_or (get_elem? args 1) default_workers;
      queue_depth = number_or (get_elem? args 2) default_queue_depth;
      metrics_port = metrics_port;
    })
