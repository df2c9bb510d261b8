-- ===== src/Dns.antt =====
-- src/dnscache.c: the list of resolved names - do_my_gethostbyname, my_gethostbyname and expire_dns.
-- gethostbyname2 is a parameter that may answer differently at each time. Memory does not run out.
pub mod Expiry
pub mod Reached
pub mod Tests
use sysmon.Base.{
  ℕ, zero, suc, ◌+◌, ◌≡◌, Bool, true, false, List, [], ◌∷◌, Option, none, some, ltb, take,
  if◌then◌else◌,
}
use sysmon.Base.Int.{ℤ, pos, negsuc}
use sysmon.Base.Text.{Text, str_eq, is_empty}

-- What the resolver gives: the first of its addresses, and how many bytes an address has.
pub record Hostent : Type 0 where
  pub h_name : Text
  pub h_addrtype : ℤ
  pub h_length : ℕ
  pub h_addr : List ℕ

-- The fields for v6 are never filled in.
pub record MyHostent : Type 0 where
  pub h_name : Text
  pub h_addrtype_v4 : ℤ
  pub h_length_v4 : ℕ
  pub my_h_addr_v4 : List ℕ

pub record DnsEntry : Type 0 where
  pub hostname : Text
  pub hp : MyHostent
  pub lastquery : ℕ

-- The line that expire_dns logs: hits, misses, expired, count and entries.
pub record Stats : Type 0 where
  pub hits : ℕ
  pub misses : ℕ
  pub expired : ℕ
  pub count : ℕ
  pub entries : ℤ

pub record DnsCache : Type 0 where
  pub dnshead : List DnsEntry
  pub dnsentries : ℤ
  pub cache_hits : ℕ
  pub cache_misses : ℕ
  pub dnslog_last_log : ℕ
  pub logged : List Stats

-- gethostbyname2 at a time: the name and the address family.
abbrev pub Resolver : Type 0
Resolver = ℕ → Text → ℤ → Option Hostent

abbrev pub af_inet : ℤ
af_inet = pos 2

-- `n++` and `n--` on an int, short of its bounds
unfoldable pub increment : ℤ → ℤ
increment (pos n) = pos (suc n)
increment (negsuc zero) = pos 0
increment (negsuc (suc n)) = negsuc n

unfoldable pub decrement : ℤ → ℤ
decrement (pos zero) = negsuc 0
decrement (pos (suc n)) = pos n
decrement (negsuc n) = negsuc (suc n)

unfoldable pub copy_hostent : Hostent → MyHostent
copy_hostent hp = record {
  h_name = hp.h_name;
  h_addrtype_v4 = hp.h_addrtype;
  h_length_v4 = hp.h_length;
  my_h_addr_v4 = take hp.h_length hp.h_addr;
}

-- -1 stands for any address family, and asks for IPv4.
unfoldable pub asked_family : ℤ → ℤ
asked_family (pos n) = pos n
asked_family (negsuc zero) = af_inet
asked_family (negsuc (suc n)) = negsuc (suc n)

-- The entry goes in front of the others.
unfoldable pub add_entry : ℕ → Text → MyHostent → DnsCache → DnsCache
add_entry now hostname hp c = record c {
  dnshead = record { hostname = hostname; hp = hp; lastquery = now } ∷ c.dnshead;
  cache_misses = suc c.cache_misses;
  dnsentries = increment c.dnsentries;
}

unfoldable pub store_answer : ℕ → Text → Option Hostent → DnsCache → Option MyHostent × DnsCache
store_answer now hostname none c = (none, c)
store_answer now hostname (some hp2) c =
    (some (copy_hostent hp2), add_entry now hostname (copy_hostent hp2) c)

unfoldable pub do_my_gethostbyname :
    Resolver → ℕ → Text → ℤ → DnsCache → Option MyHostent × DnsCache
do_my_gethostbyname gethostbyname2 now hostname query_af c =
    store_answer now hostname (gethostbyname2 now hostname (asked_family query_af)) c

-- The loop of my_gethostbyname.
unfoldable pub search_cache : Text → List DnsEntry → Option MyHostent
search_cache hostname [] = none
search_cache hostname (here ∷ more) =
    if str_eq hostname here.hostname then some here.hp else search_cache hostname more

unfoldable pub answer_with :
    Resolver → ℕ → Text → ℤ → DnsCache → Option MyHostent → Option MyHostent × DnsCache
answer_with gethostbyname2 now hostname get_af c (some hp) =
    (some hp, record c { cache_hits = suc c.cache_hits })
answer_with gethostbyname2 now hostname get_af c none =
    do_my_gethostbyname gethostbyname2 now hostname get_af c

unfoldable pub my_gethostbyname : Resolver → ℕ → Text → ℤ → DnsCache → Option MyHostent × DnsCache
my_gethostbyname gethostbyname2 now hostname get_af c =
    answer_with gethostbyname2 now hostname get_af c (search_cache hostname c.dnshead)

-- `(now - here->lastquery) > dnsexpire`, for a dnsexpire that is not negative
unfoldable pub is_expired : ℕ → ℕ → DnsEntry → Bool
is_expired now dnsexpire here = ltb (here.lastquery + dnsexpire) now

-- What the loop of expire_dns counts while it frees.
pub record Freed : Type 0 where
  pub expired : ℕ
  pub dnsentries : ℤ

-- An unlinked entry is freed, and counted, one turn later.
unfoldable pub free_this : Bool → Freed → Freed
free_this false f = f
free_this true f = record { expired = suc f.expired; dnsentries = decrement f.dnsentries }

unfoldable pub expire_loop : ℕ → ℕ → Bool → Freed → List DnsEntry → List DnsEntry × Freed
expire_loop now dnsexpire freethis f [] = ([], free_this freethis f)
expire_loop now dnsexpire freethis f (here ∷ more) =
    let old = is_expired now dnsexpire here in
    let rest = expire_loop now dnsexpire old (free_this freethis f) more in
    if old then rest else (here ∷ rest.0, rest.1)

unfoldable pub count_entries : List DnsEntry → ℕ
count_entries [] = 0
count_entries (here ∷ more) = suc (count_entries more)

-- The statistics are logged once in every dnslog seconds.
unfoldable pub log_stats : ℕ → ℕ → ℕ → ℕ → DnsCache → DnsCache
log_stats now dnslog expired count c =
    if ltb (c.dnslog_last_log + dnslog) now
    then record c {
      logged =
          record {
            hits = c.cache_hits;
            misses = c.cache_misses;
            expired = expired;
            count = count;
            entries = c.dnsentries;
          }
          ∷ c.logged;
      dnslog_last_log = now;
    }
    else c

unfoldable pub expire_all : ℕ → ℕ → ℕ → DnsCache → DnsCache
expire_all now dnsexpire dnslog c =
    let (kept, freed) =
      expire_loop now dnsexpire false (record { expired = 0; dnsentries = c.dnsentries })
        c.dnshead in
    log_stats now dnslog freed.expired (count_entries c.dnshead)
      (record c { dnshead = kept; dnsentries = freed.dnsentries })

-- With nothing in the cache, nothing is logged either.
unfoldable pub expire_dns : ℕ → ℕ → ℕ → DnsCache → DnsCache
expire_dns now dnsexpire dnslog c =
    if is_empty c.dnshead then c else expire_all now dnsexpire dnslog c

-- The cache when the program starts: dnslog_last_log is boottime.
unfoldable pub no_entries : ℕ → DnsCache
no_entries boottime = record {
  dnshead = [];
  dnsentries = pos 0;
  cache_hits = 0;
  cache_misses = 0;
  dnslog_last_log = boottime;
  logged = [];
}
