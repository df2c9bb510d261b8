-- ===== src/Dns/Reached.antt =====
-- src/dnscache.c: the caches that lookups and expiries lead to, in any order and at any times.
use mathlib.Core.Path.{subst}
use sysmon.Base.{
  ℕ, ◌+◌, ◌≤◌, ◌≡◌, ◌≢◌, ◌⊎◌, true, List, [], ◌∷◌, none, some, inl, inr, refl, sym, ap, ◌∙◌, arith,
  Bool-cases, Option-cases, All, All-In, In, length,
}
use sysmon.Base.Int.{ℤ, pos}
use sysmon.Base.Text.{Text, str_eq, str_eq_iff}
use sysmon.Dns.{
  Hostent, MyHostent, DnsEntry, DnsCache, Resolver, increment, copy_hostent, asked_family,
  add_entry, store_answer, do_my_gethostbyname, search_cache, answer_with, my_gethostbyname,
  is_expired, expire_dns, no_entries,
}
use sysmon.Dns.Expiry.{
  is_expired_iff, kept, kept-old, kept-new, kept-In, expire_dns-dnshead, expire_dns-dnsentries,
}

-- No name stands in the cache twice.
abbrev pub HasDistinctNames : List DnsEntry → Type 0
HasDistinctNames [] = Unit
HasDistinctNames (here ∷ more) = All (λ e. here.hostname ≢ e.hostname) more × HasDistinctNames more

search_cache-found :
    (name : Text) (l : List DnsEntry) (hp : MyHostent)
    → search_cache name l ≡ some hp
    → (e : DnsEntry) × (In e l × ((e.hostname ≡ name) × (e.hp ≡ hp)))
unfolding search_cache
search_cache-found name [] hp f = cc
search_cache-found name (here ∷ more) hp f = elim (Bool-cases (str_eq name here.hostname)) [
  | inl same ↦
      (here, (inl refl, (sym ((str_eq_iff name here.hostname).0 same), ground (arith, f, same))))
  | inr other ↦
      let (e, (i, p)) = search_cache-found name more hp (ground (arith, f, other)) in
      (e, (inr i, p))
]

search_cache-none :
    (name : Text) (l : List DnsEntry) → search_cache name l ≡ none → All (λ e. name ≢ e.hostname) l
unfolding search_cache
search_cache-none name [] f = tt
search_cache-none name (here ∷ more) f = elim (Bool-cases (str_eq name here.hostname)) [
  | inl same ↦ absurd (ground (arith, f, same))
  | inr other ↦ (
    (λ (same : name ≡ here.hostname).
        absurd (ground (arith, other, (str_eq_iff name here.hostname).1 same))),
    search_cache-none name more (ground (arith, f, other)),
  )
]

module _ (now dnsexpire : ℕ) where
  All-kept : (P : DnsEntry → Type 0) (l : List DnsEntry) → All P l → All P (kept now dnsexpire l)
  All-kept P [] h = tt
  All-kept P (here ∷ more) h = elim (Bool-cases (is_expired now dnsexpire here)) [
    | inl old ↦ subst (All P) (sym (kept-old now dnsexpire here more old)) (All-kept P more h.1)
    | inr new ↦
        subst (All P) (sym (kept-new now dnsexpire here more new)) (h.0, All-kept P more h.1)
  ]

  kept-HasDistinctNames :
      (l : List DnsEntry) → HasDistinctNames l → HasDistinctNames (kept now dnsexpire l)
  kept-HasDistinctNames [] h = tt
  kept-HasDistinctNames (here ∷ more) h = elim (Bool-cases (is_expired now dnsexpire here)) [
    | inl old ↦
        subst HasDistinctNames (sym (kept-old now dnsexpire here more old))
          (kept-HasDistinctNames more h.1)
    | inr new ↦
        subst HasDistinctNames (sym (kept-new now dnsexpire here more new))
          (All-kept (λ e. here.hostname ≢ e.hostname) more h.0, kept-HasDistinctNames more h.1)
  ]

module _ (gethostbyname2 : Resolver) where
  -- The resolver gave the answer, to the entry's name and at the entry's time.
  pub record IsAnswer (name : Text) (asked : ℕ) (hp : MyHostent) : Type 0 where
    pub family : ℤ
    pub answer : Hostent
    pub given : gethostbyname2 asked name family ≡ some answer
    pub copied : hp ≡ copy_hostent answer

  pub record IsSound (c : DnsCache) : Type 0 where
    pub counted : c.dnsentries ≡ pos (length c.dnshead)
    pub distinct : HasDistinctNames c.dnshead
    pub answered : All (λ e. IsAnswer e.hostname e.lastquery e.hp) c.dnshead

  -- A cache that lookups and expiries lead to.
  pub data Reached : DnsCache → Type 0 where
    started : (boottime : ℕ) → Reached (no_entries boottime)
    looked_up :
        (c : DnsCache) (now : ℕ) (name : Text) (family : ℤ)
        → Reached c
        → Reached (my_gethostbyname gethostbyname2 now name family c).1
    expired :
        (c : DnsCache) (now dnsexpire dnslog : ℕ)
        → Reached c
        → Reached (expire_dns now dnsexpire dnslog c)

  -- A lookup finds the name in the cache, gets no answer, or stores the answer.
  my_gethostbyname_cases :
      (now : ℕ) (name : Text) (family : ℤ) (c : DnsCache)
      → let r = my_gethostbyname gethostbyname2 now name family c in
        ((r.0 ≡ search_cache name c.dnshead)
          × ((r.1.dnshead ≡ c.dnshead) × (r.1.dnsentries ≡ c.dnsentries)))
        ⊎ ((search_cache name c.dnshead ≡ none)
            × ((hp : MyHostent) × (IsAnswer name now hp
                  × ((r.0 ≡ some hp) × (r.1 ≡ add_entry now name hp c)))))
  unfolding my_gethostbyname answer_with do_my_gethostbyname store_answer
  my_gethostbyname_cases now name family c = elim (Option-cases (search_cache name c.dnshead)) [
    | inr (hp, f) ↦ inl (ground (arith, f))
    | inl f ↦ elim (Option-cases (gethostbyname2 now name (asked_family family))) [
      | inl g ↦ inl (ground (arith, f, g))
      | inr (answer, g) ↦
          let hp = copy_hostent answer in
          inr (
            f,
            (
              hp,
              (
                record { family = asked_family family; answer = answer; given = g; copied = refl },
                (ground (arith, f, g), ground (arith, f, g)),
              ),
            ),
          )
    ]
  ]

  looked_up-IsSound :
      (now : ℕ) (name : Text) (family : ℤ) (c : DnsCache)
      → IsSound c
      → IsSound (my_gethostbyname gethostbyname2 now name family c).1
  unfolding add_entry increment
  looked_up-IsSound now name family c s = elim (my_gethostbyname_cases now name family c) [
    | inl (_, (h, n)) ↦ record {
      counted = n ∙ s.counted ∙ ap (λ l. pos (length l)) (sym h);
      distinct = subst HasDistinctNames (sym h) s.distinct;
      answered = subst (All (λ e. IsAnswer e.hostname e.lastquery e.hp)) (sym h) s.answered;
    }
    | inr (f, (hp, (a, (_, same)))) ↦ subst IsSound (sym same) (record {
      counted = ap increment s.counted;
      distinct = (search_cache-none name c.dnshead f, s.distinct);
      answered = (a, s.answered);
    })
  ]

  expired-IsSound :
      (now dnsexpire dnslog : ℕ) (c : DnsCache)
      → IsSound c
      → IsSound (expire_dns now dnsexpire dnslog c)
  expired-IsSound now dnsexpire dnslog c s =
      let h = sym (expire_dns-dnshead now dnsexpire dnslog c) in
      record {
        counted =
            expire_dns-dnsentries now dnsexpire dnslog c s.counted ∙ ap (λ l. pos (length l)) h;
        distinct =
            subst HasDistinctNames h (kept-HasDistinctNames now dnsexpire c.dnshead s.distinct);
        answered = subst (All (λ e. IsAnswer e.hostname e.lastquery e.hp)) h (
            All-kept now dnsexpire (λ e. IsAnswer e.hostname e.lastquery e.hp) c.dnshead
              s.answered);
      }

  -- Whatever lookups and expiries were made, in any order and at any times: dnsentries is the number
  -- of entries, no name stands in the cache twice, and every entry holds the resolver's answer to its
  -- name at the time noted in it.
  pub Reached-IsSound : (c : DnsCache) → Reached c → IsSound c
  unfolding no_entries
  Reached-IsSound c (started boottime) = record { counted = refl; distinct = tt; answered = tt }
  Reached-IsSound _ (looked_up c now name family r) =
      looked_up-IsSound now name family c (Reached-IsSound c r)
  Reached-IsSound _ (expired c now dnsexpire dnslog r) =
      expired-IsSound now dnsexpire dnslog c (Reached-IsSound c r)

  -- After an expiry, the answer of a lookup in a cache that lookups and expiries led to is the
  -- resolver's answer to that name: asked now, or no more than dnsexpire seconds before the expiry.
  pub fresh_answer :
      (c : DnsCache) (now dnsexpire dnslog : ℕ) (later : ℕ) (name : Text) (family : ℤ)
      (hp : MyHostent)
      → Reached c
      → (my_gethostbyname gethostbyname2 later name family (expire_dns now dnsexpire dnslog c)).0
        ≡ some hp
      → (asked : ℕ) × (IsAnswer name asked hp × ((asked ≡ later) ⊎ (now ≤ asked + dnsexpire)))
  fresh_answer c now dnsexpire dnslog later name family hp r given =
      elim (my_gethostbyname_cases later name family (expire_dns now dnsexpire dnslog c)) [
        | inr (_, (hp2, (a, (found, _)))) ↦
            let same : hp2 ≡ hp = ground (arith, given, found) in
            (later, (subst (IsAnswer name later) same a, inl refl))
        | inl (found, _) ↦
            let at = ap (search_cache name) (sym (expire_dns-dnshead now dnsexpire dnslog c)) in
            let (e, (i, (n, same))) =
              search_cache-found name (kept now dnsexpire c.dnshead) hp (at ∙ sym found ∙ given) in
            let (j, new) = kept-In now dnsexpire e c.dnshead i in
            let s = Reached-IsSound c r in
            let a = All-In (λ e. IsAnswer e.hostname e.lastquery e.hp) e c.dnshead s.answered j in
            (
              e.lastquery,
              (
                subst (IsAnswer name e.lastquery) same
                    (subst (λ m. IsAnswer m e.lastquery e.hp) n a),
                inr ((is_expired_iff now dnsexpire e).0 new),
              ),
            )
      ]

hit :
    (gethostbyname2 : Resolver) (now : ℕ) (name : Text) (family : ℤ) (c : DnsCache) (hp : MyHostent)
    → search_cache name c.dnshead ≡ some hp
    → let r = my_gethostbyname gethostbyname2 now name family c in
      (r.0 ≡ some hp) × ((r.1.dnshead ≡ c.dnshead) × (r.1.dnsentries ≡ c.dnsentries))
unfolding my_gethostbyname answer_with
hit gethostbyname2 now name family c hp f = ground (arith, f)

-- An entry that is not too old is found after an expiry.
found_in_front :
    (now dnsexpire dnslog asked : ℕ) (name : Text) (hp : MyHostent) (c : DnsCache)
    → now ≤ asked + dnsexpire
    → search_cache name (expire_dns now dnsexpire dnslog (add_entry asked name hp c)).dnshead
      ≡ some hp
unfolding add_entry search_cache
found_in_front now dnsexpire dnslog asked name hp c fits =
    let e : DnsEntry = record { hostname = name; hp = hp; lastquery = asked } in
    let new = kept-new now dnsexpire e c.dnshead ((is_expired_iff now dnsexpire e).1 fits) in
    let at = expire_dns-dnshead now dnsexpire dnslog (add_entry asked name hp c) ∙ new in
    let same : str_eq name name ≡ true = (str_eq_iff name name).1 refl in
    ap (search_cache name) at ∙ ground (arith, same)

-- A name that the resolver answered for is not asked again while the entry is not older than
-- dnsexpire: after an expiry, a lookup of it gives the same answer and leaves the entries as they
-- are, whatever the resolver would say now, and whatever address family is asked for.
pub kept_answer :
    (before after : Resolver) (c : DnsCache) (asked now later dnsexpire dnslog : ℕ) (name : Text)
    (family other : ℤ) (hp : MyHostent)
    → search_cache name c.dnshead ≡ none
    → (my_gethostbyname before asked name family c).0 ≡ some hp
    → now ≤ asked + dnsexpire
    → let expired =
        expire_dns now dnsexpire dnslog (my_gethostbyname before asked name family c).1 in
      let again = my_gethostbyname after later name other expired in
      (again.0 ≡ some hp)
      × ((again.1.dnshead ≡ expired.dnshead) × (again.1.dnsentries ≡ expired.dnsentries))
kept_answer before after c asked now later dnsexpire dnslog name family other hp f given fits =
    elim (my_gethostbyname_cases before asked name family c) [
      | inl (found, _) ↦ absurd (ground (arith, found, f, given))
      | inr (_, (hp2, (_, (found, stored)))) ↦
          let same : hp2 ≡ hp = ground (arith, given, found) in
          let state = stored ∙ ap (λ (h : MyHostent). add_entry asked name h c) same in
          hit after later name other _ hp (
            ap (λ (x : DnsCache). search_cache name (expire_dns now dnsexpire dnslog x).dnshead)
              state
            ∙ found_in_front now dnsexpire dnslog asked name hp c fits)
    ]
