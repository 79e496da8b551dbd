-- ===== src/Ovn/Exec.antt =====
-- internal/pkg/ovn/utils.go: how the OVN and OVS tools are run. One call of `run_ovn_nbctl` is one
-- event of the trace, whatever number of attempts it took; the waits of two seconds between
-- attempts are left out.
pub mod Retry
pub mod Calls
use Prim.Native.String
use icn_nodus.Common.{
  if◌then◌else◌, sprint, is_blank, contains, trim, trim_space, itoa, ℕ, zero, suc, ◌+◌, String,
  none, some, List, [], ◌∷◌, ◌++◌,
}
use icn_nodus.Effect.{Output, Event, nbctl, vsctl, iproute, Env, done, M, ◌>>=◌, ◌>>◌, pure, check}

abbrev pub ovs_command_timeout : ℕ
ovs_command_timeout = 15

abbrev pub max_retries : ℕ
max_retries = 200

-- `if err == nil return; if the connection was refused, retry while retries are left; return`. The
-- reply of each attempt is given by its number.
unfoldable pub run_ovn_retry : (ℕ → Output) → ℕ → ℕ → Output
run_ovn_retry reply zero k = reply k
run_ovn_retry reply (suc left) k =
    let again = run_ovn_retry reply left (k + 1) in
    elim (reply k).error [
      | none ↦ reply k
      | some e ↦ if contains (reply k).stderr "Connection refused" then again else reply k
    ]

unfoldable pub get_host_ip : Env → String
get_host_ip env =
    let host_ip = env.getenv "OVN_NB_TCP_SERVICE_HOST" in
    if contains host_ip ":" then sprint ("[" ∷ host_ip ∷ "]" ∷ []) else host_ip

abbrev cert_dir : String
cert_dir = "/opt/ovn-certs/"

-- The arguments in front of every ovn-nbctl command: the SSL connection, if a host is set, and the
-- timeout.
unfoldable pub nbctl_args : String → ℕ → List String → List String
nbctl_args host_ip timeout args =
    (if is_blank host_ip
      then []
      else sprint ("--db=ssl:" ∷ host_ip ∷ ":" ∷ "6641" ∷ [])
        ∷ "-p"
        ∷ sprint (cert_dir ∷ "tls.key" ∷ [])
        ∷ "-c"
        ∷ sprint (cert_dir ∷ "tls.crt" ∷ [])
        ∷ "-C"
        ∷ sprint (cert_dir ∷ "ca.crt" ∷ [])
        ∷ [])
    ++ sprint ("--timeout=" ∷ itoa timeout ∷ []) ∷ args

-- What RunOVNNbctlWithTimeout returns in a given history.
unfoldable pub nbctl_reply : Env → List Event → ℕ → List String → Output
unfolding run_ovn_retry get_host_ip nbctl_args trim trim_space
nbctl_reply env trace timeout args =
    let out =
      run_ovn_retry (λ k. env.exec trace k "ovn-nbctl" (nbctl_args (get_host_ip env) timeout args))
        max_retries 0 in
    record out { stdout = trim b'"' (trim_space out.stdout) }

unfoldable pub run_ovn_nbctl_with_timeout : ℕ → List String → M Output
run_ovn_nbctl_with_timeout timeout args env w =
    done (nbctl_reply env w.trace timeout args) (record w { trace = nbctl args ∷ w.trace })

unfoldable pub run_ovn_nbctl : List String → M Output
unfolding run_ovn_nbctl_with_timeout
run_ovn_nbctl args = run_ovn_nbctl_with_timeout ovs_command_timeout args

unfoldable pub ip_reply : Env → List Event → List String → Output
ip_reply env trace args =
    let out = env.exec trace 0 "ip" args in record out { stdout = trim_space out.stdout }

unfoldable pub run_ip : List String → M Output
run_ip args env w = done (ip_reply env w.trace args) (record w { trace = iproute args ∷ w.trace })

unfoldable pub vsctl_reply : Env → List Event → List String → Output
vsctl_reply env trace args =
    let out =
      env.exec trace 0 "ovs-vsctl" (sprint ("--timeout=" ∷ itoa ovs_command_timeout ∷ []) ∷ args) in
    record out { stdout = trim b'"' (trim_space out.stdout) }

unfoldable pub run_ovs_vsctl : List String → M Output
run_ovs_vsctl args env w =
    done (vsctl_reply env w.trace args) (record w { trace = vsctl args ∷ w.trace })

-- `_, stderr, err := Run…; if err != nil { return err }`, with the standard output as the value.
abbrev pub must : M Output → M String
must m = do out ← m; check out.error; pure out.stdout
