-- ===== src/Network/Dhcp/Hosts.antt =====
-- The loop that deletes the hosts of the configuration until the command is heard to print something.
use noc_demo.Common.{ℕ, zero, suc, ◌<◌, ◌≤◌, ◌≡◌, ◌≢◌, refl, ◌∙◌, ap, sym, List, [], ◌∷◌, arith}
use noc_demo.Common.Texts.{Text, codes}
use mathlib.Core.Path.{subst}
use noc_demo.Network.Dhcp.Apply.{delete_hosts}
use noc_demo.Utils.Shell.{collected, c_string}
use noc_demo.Utils.Uci.{app_uci_delete, run_uci_fits}
use noc_demo.Utils.Uci.Runs.{Fits, delete_command}
use noc_demo.World.{Read, again, World, done, stopped, ran, ran-ran, ran_nothing, out_of_fuel}

abbrev pub delete_host : Text
delete_host = delete_command (codes "dhcp.@host[-1]")

abbrev pub repeat : ℕ → List Text
repeat zero = []
repeat (suc n) = delete_host ∷ repeat n

abbrev pub agains : ℕ → List Read
agains zero = []
agains (suc k) = again ∷ agains k

abbrev pub reads : World → List Read
reads w = w.answer w.executed delete_host

-- the string that execl_timeout gives for the deletion
abbrev pub heard : World → Text
heard w = c_string (collected (reads w))

abbrev pub next : World → World
next w = ran (delete_host ∷ []) w

-- The configuration has this many hosts. The deletion of a host prints nothing, and its pipe is found
-- empty `delays i` times before its end; the deletion after the last host prints something.
abbrev pub HasHosts : (ℕ → ℕ) → ℕ → World → Type 0
HasHosts delays zero w = heard w ≢ []
HasHosts delays (suc n) w =
    (reads w ≡ agains (delays 0)) × HasHosts (λ i. delays (suc i)) n (next w)

-- the deletions before the first wait, where the first waits so often
abbrev pub or_wait : ℕ → ℕ → ℕ
or_wait zero rest = suc rest
or_wait (suc k) rest = 0

-- the hosts whose deletions come before the first one that is waited for
abbrev pub at_once : (ℕ → ℕ) → ℕ → ℕ
at_once delays zero = 0
at_once delays (suc n) = or_wait (delays 0) (at_once (λ i. delays (suc i)) n)

-- Nothing is ever heard of a deletion.
abbrev pub NeverEnds : World → Type 0
NeverEnds w = (n : ℕ) → heard (ran (repeat n) w) ≡ []

delete_host_fits : Fits delete_host
delete_host_fits = omega arith

delete_hosts_silent :
    (fuel : ℕ) (w : World) → heard w ≡ [] → delete_hosts (suc fuel) w ≡ delete_hosts fuel (next w)
unfolding delete_hosts app_uci_delete
delete_hosts_silent fuel w silent = rw (run_uci_fits delete_host w delete_host_fits, silent)

first_char : (s : Text) → s ≢ [] → (c : ℕ) × (t : Text) × (s ≡ c ∷ t)
first_char [] h = absurd (h refl)
first_char (c ∷ t) h = (c, t, refl)

delete_hosts_last :
    (fuel : ℕ) (w : World) → heard w ≢ [] → delete_hosts (suc fuel) w ≡ done tt (next w)
unfolding delete_hosts app_uci_delete
delete_hosts_last fuel w printed =
    let (c, t, e) = first_char (heard w) printed in
    rw (run_uci_fits delete_host w delete_host_fits, e)

-- A deletion that is waited for is heard as characters of the wait.
heard_wait : (k : ℕ) (w : World) → reads w ≡ agains (suc k) → heard w ≢ []
heard_wait k w e = λ nothing. cc

first_wait :
    (k rest fuel : ℕ) (w : World)
    → reads w ≡ agains k
    → delete_hosts fuel (next w) ≡ done tt (ran (repeat (suc rest)) (next w))
    → delete_hosts (suc fuel) w ≡ done tt (ran (repeat (suc (or_wait k rest))) w)
first_wait zero rest fuel w e others =
    delete_hosts_silent fuel w (ap (λ rs. c_string (collected rs)) e)
    ∙ others
    ∙ ap (done tt) (ran-ran (delete_host ∷ []) (repeat (suc rest)) w)
first_wait (suc k) rest fuel w e others = delete_hosts_last fuel w (heard_wait k w e)

pub ends :
    (delays : ℕ → ℕ) (n fuel : ℕ) (w : World)
    → n < fuel
    → HasHosts delays n w
    → delete_hosts fuel w ≡ done tt (ran (repeat (suc (at_once delays n))) w)
ends delays n zero w h hosts = absurd (omega arith)
ends delays zero (suc fuel) w h printed = delete_hosts_last fuel w printed
ends delays (suc n) (suc fuel) w h (silent, hosts) =
    let later = λ (i : ℕ). delays (suc i) in
    first_wait (delays 0) (at_once later n) fuel w silent
      (ends later n fuel (next w) (omega arith) hosts)

at_once_bound : (delays : ℕ → ℕ) (n : ℕ) → at_once delays n ≤ n
at_once_bound delays zero = omega arith
at_once_bound delays (suc n) =
    let later = λ (i : ℕ). delays (suc i) in
    one_more (delays 0) (at_once later n) (at_once_bound later n)
  where
    one_more : (k rest : ℕ) → rest ≤ n → or_wait k rest ≤ suc n
    one_more zero rest h = omega arith
    one_more (suc k) rest h = omega arith

never : (fuel : ℕ) (w : World) → NeverEnds w → delete_hosts fuel w ≡ stopped out_of_fuel
unfolding delete_hosts
never zero w silent = refl
never (suc fuel) w silent =
    delete_hosts_silent fuel w (subst (λ v. heard v ≡ []) (ran_nothing w) (silent 0))
    ∙ never fuel (next w) (λ n.
      subst (λ v. heard v ≡ []) (sym (ran-ran (delete_host ∷ []) (repeat n) w)) (silent (suc n)))

-- For a configuration of `n` hosts, whose deletions print nothing and whose pipes are found empty
-- `delays i` times before their end, the loop ends for all fuel above `n`: it has run one deletion
-- more than there are deletions, at most `n` of them, before the first that is waited for, since the
-- wait itself is taken for something printed. In a world where nothing is ever heard of a deletion,
-- no fuel is enough.
pub delete_hosts_ends :
    (delays : ℕ → ℕ) (n fuel : ℕ) (w silent : World)
    → n < fuel
    → HasHosts delays n w
    → NeverEnds silent
    → (delete_hosts fuel w ≡ done tt (ran (repeat (suc (at_once delays n))) w))
      × (at_once delays n ≤ n)
      × (delete_hosts fuel silent ≡ stopped out_of_fuel)
delete_hosts_ends delays n fuel w silent h hosts never_ends =
    (ends delays n fuel w h hosts, at_once_bound delays n, never fuel silent never_ends)
