-- ===== src/Dns/Expiry.antt =====
-- src/dnscache.c: expire_dns - which entries it unlinks, and what it counts.
use sysmon.Base.{
  ℕ, suc, ◌+◌, ◌≤◌, ◌≡◌, ◌↔◌, Bool, true, false, List, [], ◌∷◌, inl, inr, refl, sym, ap, ◌∙◌, arith,
  Bool-cases, In, length, if◌then◌else◌,
}
use mathlib.Core.Path.{subst}
use sysmon.Base.Text.{is_empty}
use sysmon.Base.Int.{pos}
use sysmon.Dns.{
  DnsEntry, DnsCache, decrement, is_expired, Freed, free_this, expire_loop, log_stats, expire_all,
  expire_dns,
}

module _ (now dnsexpire : ℕ) where
  pub is_expired_iff :
      (e : DnsEntry) → (is_expired now dnsexpire e ≡ false) ↔ (now ≤ e.lastquery + dnsexpire)
  unfolding is_expired
  is_expired_iff e = ((λ h. ground (arith, h)), (λ h. ground (arith, h)))

  -- The entries that are left.
  abbrev pub kept : List DnsEntry → List DnsEntry
  kept [] = []
  kept (here ∷ more) =
      let rest = kept more in if is_expired now dnsexpire here then rest else here ∷ rest

  pub expire_loop-kept :
      (freethis : Bool) (f : Freed) (l : List DnsEntry)
      → (expire_loop now dnsexpire freethis f l).0 ≡ kept l
  unfolding expire_loop
  expire_loop-kept freethis f [] = refl
  expire_loop-kept freethis f (here ∷ more) =
      ground (arith, expire_loop-kept (is_expired now dnsexpire here) (free_this freethis f) more)

  pub kept-old :
      (here : DnsEntry) (more : List DnsEntry)
      → is_expired now dnsexpire here ≡ true
      → kept (here ∷ more) ≡ kept more
  kept-old here more o = ground (arith, o)

  pub kept-new :
      (here : DnsEntry) (more : List DnsEntry)
      → is_expired now dnsexpire here ≡ false
      → kept (here ∷ more) ≡ here ∷ kept more
  kept-new here more o = ground (arith, o)

  pub kept-In :
      (e : DnsEntry) (l : List DnsEntry)
      → In e (kept l)
      → In e l × (is_expired now dnsexpire e ≡ false)
  kept-In e [] h = absurd h
  kept-In e (here ∷ more) h = elim (Bool-cases (is_expired now dnsexpire here)) [
    | inl old ↦ let (i, n) = kept-In e more (subst (In e) (kept-old here more old) h) in (inr i, n)
    | inr new ↦ elim (subst (In e) (kept-new here more new) h) [
      | inl same ↦ (inl same, ap (is_expired now dnsexpire) (sym same) ∙ new)
      | inr i ↦ let (j, n) = kept-In e more i in (inr j, n)
    ]
  ]

  pub In-kept :
      (e : DnsEntry) (l : List DnsEntry)
      → In e l
      → is_expired now dnsexpire e ≡ false
      → In e (kept l)
  In-kept e [] h n = absurd h
  In-kept e (here ∷ more) (inl same) n =
      subst (In e) (sym (kept-new here more (ap (is_expired now dnsexpire) same ∙ n))) (inl same)
  In-kept e (here ∷ more) (inr h) n = elim (Bool-cases (is_expired now dnsexpire here)) [
    | inl old ↦ subst (In e) (sym (kept-old here more old)) (In-kept e more h n)
    | inr new ↦ subst (In e) (sym (kept-new here more new)) (inr (In-kept e more h n))
  ]

  -- Entries still to be freed, as a number.
  abbrev pub pending : Bool → ℕ
  pending false = 0
  pending true = 1

  free_this-dnsentries :
      (b : Bool) (f : Freed) (n : ℕ)
      → f.dnsentries ≡ pos (pending b + n)
      → (free_this b f).dnsentries ≡ pos n
  unfolding free_this decrement
  free_this-dnsentries false f n e = ground (arith, e)
  free_this-dnsentries true f n e = ground (arith, e)

  -- k entries were kept before these.
  pub expire_loop-dnsentries :
      (l : List DnsEntry) (b : Bool) (f : Freed) (k : ℕ)
      → f.dnsentries ≡ pos (pending b + (length l + k))
      → (expire_loop now dnsexpire b f l).1.dnsentries ≡ pos (length (kept l) + k)
  unfolding expire_loop
  expire_loop-dnsentries [] b f k e = free_this-dnsentries b f (0 + k) e
  expire_loop-dnsentries (here ∷ more) b f k e =
      let freed : (free_this b f).dnsentries ≡ pos (suc (length more) + k) =
        free_this-dnsentries b f (suc (length more) + k) e in
      elim (Bool-cases (is_expired now dnsexpire here)) [
        | inl old ↦
            let rest =
              expire_loop-dnsentries more true (free_this b f) k (freed ∙ ap pos (omega arith)) in
            ground (arith, rest, old)
        | inr new ↦
            let rest =
              expire_loop-dnsentries more false (free_this b f) (suc k)
                (freed ∙ ap pos (omega arith)) in
            ground (arith, rest, new)
      ]

  -- What expire_dns does, whether the cache is empty or not.
  kept-empty : (l : List DnsEntry) → is_empty l ≡ true → kept l ≡ l
  kept-empty [] e = refl
  kept-empty (here ∷ more) e = cc

  module _ (dnslog : ℕ) (c : DnsCache) where
    pub expire_dns-dnshead : (expire_dns now dnsexpire dnslog c).dnshead ≡ kept c.dnshead
    unfolding expire_dns expire_all log_stats
    expire_dns-dnshead = ground (
      arith,
      kept-empty c.dnshead,
      expire_loop-kept false (record { expired = 0; dnsentries = c.dnsentries }) c.dnshead,
    )

    pub expire_dns-dnsentries :
        c.dnsentries ≡ pos (length c.dnshead)
        → (expire_dns now dnsexpire dnslog c).dnsentries ≡ pos (length (kept c.dnshead))
    unfolding expire_dns expire_all log_stats
    expire_dns-dnsentries e = ground (
      arith,
      kept-empty c.dnshead,
      e,
      expire_loop-dnsentries c.dnshead false (record { expired = 0; dnsentries = c.dnsentries }) 0
          (e ∙ ap pos (omega arith)),
    )
