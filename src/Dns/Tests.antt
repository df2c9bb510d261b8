-- ===== src/Dns/Tests.antt =====
-- Small caches: a resolver that knows one name, and moves it to another address after a while.
use sysmon.Base.{
  ℕ, ◌+◌, ◌≤◌, ◌≡◌, ◌⊎◌, refl, arith, [], ◌∷◌, Option, none, some, ltb, if◌then◌else◌,
}
use sysmon.Base.Int.{ℤ, pos, negsuc}
use sysmon.Base.Text.{Text, codes, str_eq}
use sysmon.Dns.{
  Hostent, DnsCache, increment, decrement, copy_hostent, asked_family, add_entry, store_answer,
  do_my_gethostbyname, search_cache, answer_with, my_gethostbyname, is_expired, free_this,
  expire_loop, count_entries, log_stats, expire_all, expire_dns, no_entries,
}
use sysmon.Dns.Reached.{
  IsAnswer, IsSound, Reached, started, looked_up, Reached-IsSound, fresh_answer, kept_answer,
}

abbrev host : ℕ → Hostent
host n = record {
  h_name = codes "www";
  h_addrtype = pos 2;
  h_length = 4;
  h_addr = 10 ∷ 0 ∷ 0 ∷ n ∷ [];
}

-- The address changes at the time 100.
abbrev moving : ℕ → Text → ℤ → Option Hostent
moving now name family =
    if str_eq name (codes "www") then some (host (if ltb now 100 then 1 else 2)) else none

abbrev first : DnsCache
first = (my_gethostbyname moving 50 (codes "www") (negsuc 0) (no_entries 0)).1

abbrev second : DnsCache
second = expire_dns 60 100 10 first

first-Reached : Reached moving first
first-Reached = looked_up (no_entries 0) 50 (codes "www") (negsuc 0) (started 0)

-- An entry is kept for 100 seconds and no longer, and the counters follow.
expired_late : (expire_dns 150 100 10 first).dnsentries ≡ pos 1
unfolding my_gethostbyname answer_with do_my_gethostbyname store_answer add_entry search_cache
    asked_family increment decrement is_expired free_this expire_loop log_stats expire_all
    expire_dns no_entries str_eq copy_hostent count_entries
expired_late = refl

expired_later : (expire_dns 151 100 10 first).dnshead ≡ []
unfolding my_gethostbyname answer_with do_my_gethostbyname store_answer add_entry search_cache
    asked_family increment decrement is_expired free_this expire_loop log_stats expire_all
    expire_dns no_entries str_eq copy_hostent count_entries
expired_later = refl

logged_once :
    (expire_dns 151 100 10 first).logged
    ≡ record { hits = 0; misses = 1; expired = 1; count = 1; entries = pos 0 } ∷ []
unfolding my_gethostbyname answer_with do_my_gethostbyname store_answer add_entry search_cache
    asked_family increment decrement is_expired free_this expire_loop log_stats expire_all
    expire_dns no_entries str_eq copy_hostent count_entries
logged_once = refl

Reached-IsSound_example : IsSound moving first
Reached-IsSound_example = Reached-IsSound moving first first-Reached

fresh_answer_example :
    (asked : ℕ) × (IsAnswer moving (codes "www") asked (copy_hostent (host 1))
      × ((asked ≡ 120) ⊎ (60 ≤ asked + 100)))
unfolding my_gethostbyname answer_with do_my_gethostbyname store_answer add_entry search_cache
    asked_family increment decrement is_expired free_this expire_loop log_stats expire_all
    expire_dns no_entries str_eq copy_hostent count_entries
fresh_answer_example =
    fresh_answer moving first 60 100 10 120 (codes "www") (pos 2) (copy_hostent (host 1))
      first-Reached refl

kept_answer_example :
    let again = my_gethostbyname moving 120 (codes "www") (pos 2) second in
    (again.0 ≡ some (copy_hostent (host 1)))
    × ((again.1.dnshead ≡ second.dnshead) × (again.1.dnsentries ≡ second.dnsentries))
unfolding my_gethostbyname answer_with do_my_gethostbyname store_answer add_entry search_cache
    asked_family increment decrement is_expired free_this expire_loop log_stats expire_all
    expire_dns no_entries str_eq copy_hostent count_entries
kept_answer_example =
    kept_answer moving moving (no_entries 0) 50 60 120 100 10 (codes "www") (negsuc 0) (pos 2)
      (copy_hostent (host 1)) refl refl (omega arith)
