-- ===== src/IpLimiter/Bounded.antt =====
-- The limiter never holds more addresses than its maximum (internal/core/app.go).
use shiro_distributed_system.Common.{
  ℕ, suc, ◌≤◌, ◌≡◌, inl, inr, refl, false, List, [], ◌∷◌, Text, ℤ, arith, ltb, leb, text_key,
  length, length-select-le, is_empty, Bool-cases, Option-cases, subst, pos, pos_part, not, ◌-◌,
}
use shiro_distributed_system.Common.Assoc.{
  Map, lookup, insert, delete, length-insert-le, length-delete-lt,
}
use shiro_distributed_system.GoMax.{max, max_floor}
use shiro_distributed_system.Limiter.{Rate}
use shiro_distributed_system.IpLimiter.Tables.{
  Named, insert-Named, delete-Named, select-Named, lookup-Named, oldest_ip-key,
  length-insert_present,
}
use shiro_distributed_system.IpLimiter.{
  IpLimiterEntry, IpRateLimiter, new_ip_rate_limiter, sweep_locked, oldest_ip, evict_oldest_locked,
  find_or_make, allow, run,
}

module _ (rate : Rate) where
  pub record IsBounded (l : IpRateLimiter rate) : Type 0 where
    pub room : 1 ≤ l.max_ips
    pub within : length l.entries ≤ l.max_ips
    pub named : Named l.entries

  sweep_locked-IsBounded :
      (l : IpRateLimiter rate) (now : ℕ) → IsBounded l → IsBounded (sweep_locked rate l now)
  unfolding sweep_locked
  sweep_locked-IsBounded l now v =
      let recent = λ (e : Text × IpLimiterEntry rate). not (ltb e.1.last_seen (now - l.ttl)) in
      ground (arith, length-select-le recent l.entries, select-Named recent l.entries v.named)

  -- The oldest address of a table that is not empty is there to be deleted.
  delete-oldest_ip :
      (m : Map Text (IpLimiterEntry rate))
      → Named m
      → 1 ≤ length m
      → (is_empty (oldest_ip rate m) ≡ false)
        × (suc (length (delete (oldest_ip rate m) m)) ≤ length m)
  delete-oldest_ip [] n h = absurd (omega arith)
  delete-oldest_ip ((a, f) ∷ m) n h =
      let (e, found) = oldest_ip-key rate a f m in
      (lookup-Named _ e ((a, f) ∷ m) found n, length-delete-lt _ e ((a, f) ∷ m) found)

  evict-IsBounded :
      (l : IpRateLimiter rate)
      → IsBounded l
      → 1 ≤ length l.entries
      → IsBounded (evict_oldest_locked rate l)
        × (suc (length (evict_oldest_locked rate l).entries) ≤ l.max_ips)
        × ((evict_oldest_locked rate l).max_ips ≡ l.max_ips)
  unfolding evict_oldest_locked
  evict-IsBounded l v h = ground (
    arith,
    delete-oldest_ip l.entries v.named h,
    delete-Named (oldest_ip rate l.entries) l.entries v.named,
  )

  -- After `find_or_make` there is room for the address's entry.
  find_or_make-room :
      (l : IpRateLimiter rate) (ip : Text) (now : ℕ) (e : IpLimiterEntry rate)
      → is_empty ip ≡ false
      → IsBounded l
      → let found = (find_or_make rate l ip now).0 in
        IsBounded (record found { entries = insert ip e found.entries })
  unfolding find_or_make
  find_or_make-room l ip now e h v = elim (Option-cases (lookup ip l.entries)) [
    | inl absent ↦ elim (Bool-cases (leb l.max_ips (length l.entries))) [
      | inl full ↦
          let evicted = evict_oldest_locked rate l in
          let facts = evict-IsBounded l v (ground arith) in
          ground (
            arith,
            length-insert-le ip e evicted.entries,
            insert-Named ip e evicted.entries h facts.0.named,
          )
      | inr free ↦
          ground (arith, length-insert-le ip e l.entries, insert-Named ip e l.entries h v.named)
    ]
    | inr (f, present) ↦
        ground
          (arith, length-insert_present ip e f l.entries, insert-Named ip e l.entries h v.named)
  ]

  pub allow-IsBounded :
      (l : IpRateLimiter rate) (ip : Text) (now : ℕ)
      → is_empty ip ≡ false
      → IsBounded l
      → IsBounded (allow rate l ip now).0
  unfolding allow
  allow-IsBounded l ip now h v = elim (Bool-cases (ltb l.next_sweep now)) [
    | inl due ↦
        rw due
          (find_or_make-room (sweep_locked rate l now) ip now _ h (sweep_locked-IsBounded l now v))
    | inr early ↦ rw early (find_or_make-room l ip now _ h v)
  ]

  pub run-IsBounded :
      (l : IpRateLimiter rate) (calls : List (Text × ℕ))
      → Named calls
      → IsBounded l
      → IsBounded (run rate l calls)
  unfolding run
  run-IsBounded l [] n v = v
  run-IsBounded l ((ip, now) ∷ calls) n v =
      run-IsBounded (allow rate l ip now).0 calls n.1 (allow-IsBounded l ip now n.0 v)

  new-IsBounded :
      (r b : ℕ) (max_ips : ℤ) (ttl now : ℕ)
      → IsBounded (new_ip_rate_limiter rate r b max_ips ttl now)
  unfolding new_ip_rate_limiter
  new-IsBounded r b max_ips ttl now = ground (arith, max_floor 100 max_ips)

  run-max_ips :
      (l : IpRateLimiter rate) (calls : List (Text × ℕ)) → (run rate l calls).max_ips ≡ l.max_ips
  unfolding run allow find_or_make evict_oldest_locked sweep_locked
  run-max_ips l [] = refl
  run-max_ips l ((ip, now) ∷ calls) = ground (arith, run-max_ips (allow rate l ip now).0 calls)

  -- Whatever requests come, from whatever addresses that are not the empty text, the limiter tracks
  -- at most as many addresses as its configured maximum, which is at least 100.
  pub run-new-length-le :
      (r b : ℕ) (max_ips : ℤ) (ttl now : ℕ) (calls : List (Text × ℕ))
      → Named calls
      → length (run rate (new_ip_rate_limiter rate r b max_ips ttl now) calls).entries
        ≤ pos_part (max (pos 100) max_ips)
  unfolding new_ip_rate_limiter
  run-new-length-le r b max_ips ttl now calls n =
      let start = new_ip_rate_limiter rate r b max_ips ttl now in
      let v = run-IsBounded start calls n (new-IsBounded r b max_ips ttl now) in
      subst (λ k. length (run rate start calls).entries ≤ k) (run-max_ips start calls) v.within
