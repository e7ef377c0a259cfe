-- ===== src/IpLimiter/Isolation.antt =====
-- What a request from one address does to the buckets of the others (internal/core/app.go).
use shiro_distributed_system.Common.{
  ℕ, ◌-◌, ◌≤◌, ◌≡◌, false, not, none, some, List, [], ◌∷◌, Text, arith, ltb, text_key, text_eq,
  text_eq_iff, length, is_empty, All, if◌then◌else◌, ◌∙◌,
}
use shiro_distributed_system.Common.Assoc.{
  Map, lookup, delete, lookup-insert, lookup-delete, lookup-delete_self,
}
use shiro_distributed_system.Limiter.{Rate}
use shiro_distributed_system.IpLimiter.Tables.{
  Distinct, insert-Distinct, delete-Distinct, select-Distinct, lookup-Named, oldest_ip-least, Named,
}
use shiro_distributed_system.IpLimiter.{
  IpLimiterEntry, IpRateLimiter, sweep_locked, oldest_ip, evict_oldest_locked, find_or_make, allow,
  run,
}

module _ (rate : Rate) where
  sweep_locked-Distinct :
      (l : IpRateLimiter rate) (now : ℕ)
      → Distinct l.entries
      → Distinct (sweep_locked rate l now).entries
  unfolding sweep_locked
  sweep_locked-Distinct l now d =
      let recent = λ (e : Text × IpLimiterEntry rate). not (ltb e.1.last_seen (now - l.ttl)) in
      ground (arith, select-Distinct recent l.entries d)

  find_or_make-Distinct :
      (l : IpRateLimiter rate) (ip : Text) (now : ℕ)
      → Distinct l.entries
      → Distinct (find_or_make rate l ip now).0.entries
  unfolding find_or_make evict_oldest_locked
  find_or_make-Distinct l ip now d =
      ground (arith, delete-Distinct (oldest_ip rate l.entries) l.entries d)

  -- The limiter after the sweep, if one is due.
  abbrev swept : IpRateLimiter rate → ℕ → IpRateLimiter rate
  swept l now = if ltb l.next_sweep now then sweep_locked rate l now else l

  swept-Distinct :
      (l : IpRateLimiter rate) (now : ℕ) → Distinct l.entries → Distinct (swept l now).entries
  swept-Distinct l now d = ground (arith, sweep_locked-Distinct l now d)

  allow-Distinct :
      (l : IpRateLimiter rate) (ip : Text) (now : ℕ)
      → Distinct l.entries
      → Distinct (allow rate l ip now).0.entries
  unfolding allow
  allow-Distinct l ip now d =
      insert-Distinct ip _ _ (find_or_make-Distinct (swept l now) ip now (swept-Distinct l now d))

  -- Entries stay one to an address through all requests.
  pub run-Distinct :
      (l : IpRateLimiter rate) (calls : List (Text × ℕ))
      → Distinct l.entries
      → Distinct (run rate l calls).entries
  unfolding run
  run-Distinct l [] d = d
  run-Distinct l ((ip, now) ∷ calls) d =
      run-Distinct (allow rate l ip now).0 calls (allow-Distinct l ip now d)

  allow-lookup_ne :
      (l : IpRateLimiter rate) (ip j : Text) (now : ℕ)
      → text_eq ip j ≡ false
      → lookup j (allow rate l ip now).0.entries
        ≡ lookup j (find_or_make rate (swept l now) ip now).0.entries
  unfolding allow
  allow-lookup_ne l ip j now other = rw (lookup-insert, other)

  oldest_entry :
      (m : Map Text (IpLimiterEntry rate))
      → Distinct m
      → Named m
      → 1 ≤ length m
      → (e : IpLimiterEntry rate) × (lookup (oldest_ip rate m) m ≡ some e)
        × All (λ x. e.last_seen ≤ x.1.last_seen) m
        × (is_empty (oldest_ip rate m) ≡ false)
  oldest_entry [] d n h = absurd (omega arith)
  oldest_entry ((a, f) ∷ m) d n h =
      let (e, found, least) = oldest_ip-least rate a f m d in
      (e, found, least, lookup-Named _ e ((a, f) ∷ m) found n)

  find_or_make_full :
      (l : IpRateLimiter rate) (ip : Text) (now : ℕ)
      → l.max_ips ≤ length l.entries
      → lookup ip l.entries ≡ none
      → is_empty (oldest_ip rate l.entries) ≡ false
      → (find_or_make rate l ip now).0.entries ≡ delete (oldest_ip rate l.entries) l.entries
  unfolding find_or_make evict_oldest_locked
  find_or_make_full l ip now full absent named = ground arith

  allow-lookup_full :
      (l : IpRateLimiter rate) (ip : Text) (now : ℕ)
      → l.max_ips ≤ length l.entries
      → now ≤ l.next_sweep
      → lookup ip l.entries ≡ none
      → is_empty (oldest_ip rate l.entries) ≡ false
      → (j : Text) → text_eq ip j ≡ false
      → lookup j (allow rate l ip now).0.entries
        ≡ lookup j (delete (oldest_ip rate l.entries) l.entries)
  allow-lookup_full l ip now full early absent named j other =
      ground (arith, allow-lookup_ne l ip j now other, find_or_make_full l ip now full absent named)

  absent-ne-present :
      (a b : Text) (e : IpLimiterEntry rate) (m : Map Text (IpLimiterEntry rate))
      → lookup a m ≡ none
      → lookup b m ≡ some e
      → text_eq a b ≡ false
  absent-ne-present a b e m h k = ground (arith, text_eq_iff a b)

  -- When the table is full and no sweep is due, a request from a new address drops one address, none
  -- of whose rivals was seen before it, and leaves every other address `j` but its own as it was.
  allow-evicts_oldest :
      (l : IpRateLimiter rate) (ip j : Text) (now : ℕ)
      → Distinct l.entries
      → Named l.entries
      → 1 ≤ length l.entries
      → l.max_ips ≤ length l.entries
      → now ≤ l.next_sweep
      → lookup ip l.entries ≡ none
      → text_eq ip j ≡ false
      → (old : Text) × (e : IpLimiterEntry rate) × (lookup old l.entries ≡ some e)
        × All (λ x. e.last_seen ≤ x.1.last_seen) l.entries
        × (lookup old (allow rate l ip now).0.entries ≡ none)
        × (lookup j (allow rate l ip now).0.entries
            ≡ (if text_eq old j then none else lookup j l.entries))
  allow-evicts_oldest l ip j now d n h full early absent other =
      let old = oldest_ip rate l.entries in
      let (e, found, least, named) = oldest_entry l.entries d n h in
      let after = allow-lookup_full l ip now full early absent named in
      let apart = absent-ne-present ip old e l.entries absent found in
      (
        old,
        e,
        found,
        least,
        after old apart ∙ lookup-delete_self old l.entries,
        after j other ∙ lookup-delete old j l.entries,
      )
